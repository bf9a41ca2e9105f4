-- ===== src/Network/Web/Linked/Serving.antt =====
-- The handlers of requests and messages keep the two maps of the server in agreement.
use picolibs.Base.{
  ℕ, refl, inl, inr, Bool, true, false, Option, none, some, List, [], ◌∷◌, Option-cases, find_key,
  codes, Holds, Holds-some, Holds-if, Holds-bind,
}
use picolibs.Network.Http.{HttpRequest, same_text, substr, header, request_type}
use picolibs.Network.Http.Parse.{parse_request}
use picolibs.Network.Ws.{build_packet}
use picolibs.Network.Web.{Host, WebClient, Web, note, find_client, send_buffer, served, messaged}
use picolibs.Network.Web.Serve.{
  AppCall, call_send_data, call_send_message, call_broadcast, App, send_websocket, send_data,
  send_message, broadcast_to, broadcast_websocket, run_calls, is_upgrade, upgrade_answer,
  open_websocket, process_http_rqst, parse_again, process_rqst, answer_close, process_websocket,
  opcode_text, opcode_close, opcode_pong,
}
use picolibs.Network.Web.Linked.{IsLinked, note-IsLinked}
use picolibs.Network.Web.Linked.Steps.{
  Links, kept, mark_for_close-IsLinked, close_client-IsLinked, send_buffer-IsLinked,
}

module _ (host : Host) where
  pub send_websocket-IsLinked :
      (pcb : Option ℕ) (opc : ℕ) (payload : List ℕ) (web : Web)
      → IsLinked web
      → Links (send_websocket host pcb opc payload web)
  unfolding send_websocket
  send_websocket-IsLinked pcb opc payload web l =
      Holds-bind IsLinked (build_packet opc payload false (λ i. 0)) _
        (λ msg e. send_buffer-IsLinked host pcb msg web l)

  send_data-IsLinked :
      (h : ℕ) (bytes : List ℕ) (web : Web) → IsLinked web → Links (send_data host h bytes web)
  unfolding send_data
  send_data-IsLinked h bytes web l = Holds-bind IsLinked (find_key h web.clients) _ (λ client found.
      elim (Option-cases (find_client client.pcb web)) [
        | inl e ↦ rw e (Holds-some IsLinked _ l)
        | inr (h', e) ↦ rw e (
            Holds-if IsLinked _ _ _ (send_buffer-IsLinked host client.pcb bytes web l)
              (Holds-some IsLinked _ l))
      ])

  send_message-IsLinked :
      (h : ℕ) (message : List ℕ) (web : Web)
      → IsLinked web
      → Links (send_message host h message web)
  unfolding send_message
  send_message-IsLinked h message web l =
      Holds-bind IsLinked (find_key h web.clients) _ (λ client found.
        elim (Option-cases (find_client client.pcb web)) [
          | inl e ↦ rw e (Holds-some IsLinked _ l)
          | inr (h', e) ↦ rw e (
              Holds-if IsLinked _ _ _ (send_websocket-IsLinked client.pcb opcode_text message web l)
                (Holds-some IsLinked _ l))
        ])

  broadcast_to-IsLinked :
      (handles text : List ℕ) (web : Web)
      → IsLinked web
      → Links (broadcast_to host handles text web)
  unfolding broadcast_to
  broadcast_to-IsLinked [] text web l = Holds-some IsLinked _ l
  broadcast_to-IsLinked (h ∷ handles) text web l =
      Holds-bind IsLinked (find_key h web.clients) _ (λ client found.
        Holds-bind IsLinked _ _ (λ web' e. broadcast_to-IsLinked handles text web' (
          Holds-if IsLinked client.websocket _ _
            (send_websocket-IsLinked client.pcb opcode_text text web l) (Holds-some IsLinked _ l)
            web' e)))

  pub run_calls-IsLinked :
      (calls : List AppCall) (web : Web) → IsLinked web → Links (run_calls host calls web)
  unfolding run_calls broadcast_websocket
  run_calls-IsLinked [] web l = Holds-some IsLinked _ l
  run_calls-IsLinked (call_send_data h bytes ∷ calls) web l =
      Holds-bind IsLinked (send_data host h bytes web) _
        (λ web' e. run_calls-IsLinked calls web' (send_data-IsLinked h bytes web l web' e))
  run_calls-IsLinked (call_send_message h text ∷ calls) web l =
      Holds-bind IsLinked (send_message host h text web) _
        (λ web' e. run_calls-IsLinked calls web' (send_message-IsLinked h text web l web' e))
  run_calls-IsLinked (call_broadcast text ∷ calls) web l =
      Holds-bind IsLinked (broadcast_websocket host text web) _
        (λ web' e. run_calls-IsLinked calls web' (broadcast_to-IsLinked _ text web l web' e))

  open_websocket-IsLinked : (h : ℕ) (web : Web) → IsLinked web → Links (open_websocket host h web)
  unfolding open_websocket
  open_websocket-IsLinked h web l = Holds-bind IsLinked (find_key h web.clients) _ (λ client found.
      Holds-bind IsLinked (is_upgrade client.requests.http) _ (λ good e.
        Holds-if IsLinked good _ _
          (Holds-bind IsLinked (upgrade_answer host client.requests.http) _ (λ resp r.
            Holds-bind IsLinked (send_buffer host client.pcb resp web) _ (λ web' s.
              Holds-some IsLinked _ (
                kept h _ web' (λ c. refl) (λ c. refl) (λ c. refl)
                  (send_buffer-IsLinked host client.pcb resp web l web' s)))))
          (Holds-some IsLinked _ l)))

-- What an operation that answers a test, too, gives agrees.
abbrev LinksBoth : Option (Bool × Web) → Type 0
LinksBoth = Holds (λ (r : Bool × Web). IsLinked (r.1))

module _ (host : Host) (app : App) where
  process_http_rqst-IsLinked :
      (h : ℕ) (web : Web) → IsLinked web → LinksBoth (process_http_rqst host app h web)
  unfolding process_http_rqst
  process_http_rqst-IsLinked h web l = Holds-bind _ (find_key h web.clients) _ (λ client found.
      let answer = app.http_callback web.log h client.requests.http in
      let l0 =
        kept h (λ c. record c { requests = record { rqst = c.requests.rqst; http = answer.http } })
          (note (served h) web) (λ c. refl) (λ c. refl) (λ c. refl)
          (note-IsLinked (served h) web l) in
      Holds-bind _ (run_calls host answer.calls _) _ (λ web1 e1.
        let l1 = run_calls-IsLinked host answer.calls _ l0 web1 e1 in
        Holds-bind _ (find_key h web1.clients) _ (λ client1 found1. Holds-bind _ _ _ (λ web2 e2.
          Holds-some _ (answer.close, web2)
            (Holds-if IsLinked answer.handled _ _ (Holds-some IsLinked _ l1)
              (send_buffer-IsLinked host client1.pcb _ web1 l1) web2 e2)))))

  parse_again-IsLinked : (h : ℕ) (web : Web) → IsLinked web → Links (parse_again host app h web)
  unfolding parse_again
  parse_again-IsLinked h web l = Holds-bind IsLinked (find_key h web.clients) _ (λ client found.
      Holds-bind IsLinked (request_type client.requests.http) _ (λ kind e.
        Holds-if IsLinked (same_text kind (codes "POST")) _ _
          (Holds-bind IsLinked (again client) _ (λ (rqst', http', ret) p. Holds-some IsLinked _ (
            kept h (λ c. record c { requests = record { rqst = rqst'; http = http' } }) web
              (λ c. refl) (λ c. refl) (λ c. refl) l)))
          (Holds-some IsLinked _ l)))
    where
      again : WebClient → Option (List ℕ × HttpRequest × Bool)
      again client =
          parse_request host.stoul host.sscanf_x host.unset host.parse_fuel client.requests.rqst
            true client.requests.http

  pub process_rqst-IsLinked :
      (h : ℕ) (web : Web) → IsLinked web → Links (process_rqst host app h web)
  unfolding process_rqst
  process_rqst-IsLinked h web l = Holds-bind IsLinked (find_key h web.clients) _ (λ client found.
      Holds-bind IsLinked (header (codes "Upgrade") client.requests.http) _ (λ upgrade u.
        Holds-bind IsLinked _ _ (λ (close, web1) e1.
          let l1 : IsLinked web1 =
            Holds-if (λ (r : Bool × Web). IsLinked (r.1)) (same_text upgrade (codes "websocket")) _
              _
              (Holds-bind _ (open_websocket host h web) _
                (λ web' o. Holds-some _ (true, web') (open_websocket-IsLinked host h web l web' o)))
              (Holds-bind _ (parse_again host app h web) _
                (λ web' o. process_http_rqst-IsLinked h web' (parse_again-IsLinked h web l web' o)))
              (close, web1) e1 in
          Holds-bind IsLinked (find_key h web1.clients) _ (λ client1 found1.
            Holds-if IsLinked _ _ _ (close_client-IsLinked host client1.pcb false web1 l1)
              (Holds-some IsLinked _ l1)))))

  answer_close-IsLinked :
      (h : ℕ) (payload : List ℕ) (web : Web)
      → IsLinked web
      → Links (answer_close host app h payload web)
  unfolding answer_close
  answer_close-IsLinked h payload web l =
      Holds-bind IsLinked (find_key h web.clients) _ (λ client found.
        Holds-if IsLinked client.ws_close_sent _ _ (Holds-some IsLinked _ l) (
          send_websocket-IsLinked host client.pcb opcode_close payload _
            (kept h _ web (λ c. refl) (λ c. refl) (λ c. refl) l)))

  pub process_websocket-IsLinked :
      (h : ℕ) (web : Web) → IsLinked web → Links (process_websocket host app h web)
  unfolding process_websocket
  process_websocket-IsLinked h web l =
      Holds-bind IsLinked (find_key h web.clients) _ (λ client found.
        Holds-bind IsLinked (substr client.wshdr.start client.wshdr.length client.requests.rqst) _
          (λ payload s. Holds-if IsLinked _ _ _ (message h payload) (
            Holds-if IsLinked _ _ _
              (send_websocket-IsLinked host client.pcb opcode_pong payload web l)
              (Holds-if IsLinked _ _ _
                (Holds-bind IsLinked (answer_close host app h payload web) _ (λ web1 e1.
                  Holds-bind IsLinked (find_key h web1.clients) _ (λ client1 found1.
                    Holds-some IsLinked _ (
                      mark_for_close-IsLinked client1.pcb web1
                        (answer_close-IsLinked h payload web l web1 e1)))))
                (Holds-some IsLinked _ l)))))
    where
      message :
          (i : ℕ) (text : List ℕ)
          → Links (elim app.message_callback [
            | none ↦ some web
            | some callback ↦ run_calls host (callback web.log i text) (note (messaged i text) web)
          ])
      message i text = elim (Option-cases app.message_callback) [
        | inl e ↦ rw e (Holds-some IsLinked _ l)
        | inr (callback, e) ↦ rw e (run_calls-IsLinked host _ _ (note-IsLinked _ web l))
      ]
