-- ===== src/Network/Web/Linked/Callbacks.antt =====
-- The callbacks of lwIP keep the two maps of the server in agreement.
use picolibs.Base.{
  ℕ, zero, suc, ◌≡◌, refl, sym, ap, ◌∙◌, inl, inr, Bool, true, false, Option, none, some, List, [],
  ◌∷◌, ltb, if◌then◌else◌, ◌>>=◌, Option-cases, find_key, length, Holds, Holds-some, Holds-if,
  Holds-bind,
}
use picolibs.Network.Client.{rqst_is_ready, reset_rqst}
use picolibs.Network.Ws.{Parsed, fail, success, fault, parse_packet}
use picolibs.Network.Web.{Host, WebClient, Web, modify, find_client, add_client, acknowledge_client}
use picolibs.Network.Web.Serve.{App, process_rqst, process_websocket, opcode_close}
use picolibs.Network.Web.Serve.Callbacks.{
  packet_is_ready, reset_packet, is_ready, reset_client, close_if_idle, tcp_server_poll,
  tcp_server_sent, tcp_server_accept, tcp_server_err, serve_all, tcp_server_recv,
}
use picolibs.Network.Web.Linked.{IsLinked, note-IsLinked, modify-IsLinked, delete-IsLinked}
use picolibs.Network.Web.Linked.Steps.{
  Links, kept, acknowledge_client-IsLinked, mark_for_close-IsLinked, add_client-IsLinked,
  close_client-IsLinked, write_next-IsLinked,
}
use picolibs.Network.Web.Linked.Serving.{
  send_websocket-IsLinked, process_rqst-IsLinked, process_websocket-IsLinked,
}

-- A client that stays the same one.
abbrev SameClient : WebClient → WebClient → Type 0
SameClient client client' =
    (client'.handle ≡ client.handle) × (client'.pcb ≡ client.pcb) × (client'.closed ≡ client.closed)

packet_is_ready_same :
    (client : WebClient)
    → Holds (λ (r : Bool × WebClient). SameClient client (r.1)) (packet_is_ready client)
unfolding packet_is_ready
packet_is_ready_same client = go (parse_packet client.requests.rqst)
  where
    go :
        (p : Parsed)
        → Holds
            (λ (r : Bool × WebClient). SameClient client (r.1))
            (elim p [
              | fail ↦ some (false, client)
              | fault ↦ none
              | success header plain ↦ some (
                true,
                record client {
                  requests = record { rqst = plain; http = client.requests.http };
                  wshdr = header;
                },
              )
            ])
    go fail = Holds-some _ (false, client) (refl, refl, refl)
    go fault = λ r e. cc
    go (success header plain) = Holds-some _ _ (refl, refl, refl)

-- The client that `reset_client` leaves, by whether it is a web socket.
abbrev reset_to : Bool → WebClient → WebClient
reset_to websocket c =
    if websocket then reset_packet c else record c { requests = reset_rqst c.requests }

reset_handle : (websocket : Bool) (c : WebClient) → (reset_to websocket c).handle ≡ c.handle
unfolding reset_packet
reset_handle true c = refl
reset_handle false c = refl

reset_pcb : (websocket : Bool) (c : WebClient) → (reset_to websocket c).pcb ≡ c.pcb
unfolding reset_packet
reset_pcb true c = refl
reset_pcb false c = refl

reset_mark : (websocket : Bool) (c : WebClient) → (reset_to websocket c).closed ≡ c.closed
unfolding reset_packet
reset_mark true c = refl
reset_mark false c = refl

module _ (host : Host) where
  is_ready_same :
      (client : WebClient)
      → Holds (λ (r : Bool × WebClient). SameClient client (r.1)) (is_ready host client)
  unfolding is_ready
  is_ready_same client = Holds-if _ client.websocket _ _ (packet_is_ready_same client) (
      Holds-bind _
        (rqst_is_ready host.stoul host.sscanf_x host.unset host.parse_fuel client.requests) _
        (λ (ready, requests') e.
          Holds-some _ (ready, record client { requests = requests' }) (refl, refl, refl)))

  reset_client-IsLinked : (h : ℕ) (web : Web) → IsLinked web → Links (reset_client host h web)
  unfolding reset_client
  reset_client-IsLinked h web l = Holds-bind IsLinked (find_key h web.clients) _ (λ client found.
      Holds-some IsLinked _ (
        kept h _ web (λ c. reset_handle c.websocket c) (λ c. reset_pcb c.websocket c)
          (λ c. reset_mark c.websocket c) l))

  pub close_if_idle-IsLinked :
      (pcb h : ℕ) (web : Web) → IsLinked web → Links (close_if_idle host pcb h web)
  unfolding close_if_idle
  close_if_idle-IsLinked pcb h web l =
      Holds-bind IsLinked (find_key h web.clients) _ (λ client found.
        Holds-if IsLinked _ _ _ (Holds-some IsLinked _ l) (
          Holds-if IsLinked _ _ _
            (send_websocket-IsLinked host client.pcb opcode_close [] _
              (kept h _ web (λ c. refl) (λ c. refl) (λ c. refl) l))
            (Holds-some IsLinked _ (mark_for_close-IsLinked (some pcb) web l))))

  pub tcp_server_poll-IsLinked :
      (pcb : ℕ) (web : Web) → IsLinked web → Links (tcp_server_poll host pcb web)
  unfolding tcp_server_poll
  tcp_server_poll-IsLinked pcb web l = elim (Option-cases (find_client (some pcb) web)) [
    | inl e ↦ rw (tcp_server_poll, e) (Holds-some IsLinked _ l)
    | inr (h, e) ↦
        rw (tcp_server_poll, e)
          (Holds-bind IsLinked (find_key h web.clients) _ (λ client found.
            Holds-if IsLinked _ _ _
              (Holds-bind IsLinked _ _ (λ web1 e1.
                let l1 : IsLinked web1 =
                  Holds-if IsLinked (ltb 0 (length client.sendbuf)) _ _
                    (write_next-IsLinked host client.pcb web l) (Holds-some IsLinked _ l) web1 e1 in
                Holds-bind IsLinked (close_if_idle host pcb h web1) _ (λ web2 e2.
                  let l2 = close_if_idle-IsLinked pcb h web1 l1 web2 e2 in
                  Holds-bind IsLinked (find_key h web2.clients) _ (λ client2 found2.
                    Holds-if IsLinked _ _ _ (close_client-IsLinked host (some pcb) false web2 l2)
                      (Holds-some IsLinked _ l2)))))
              (close_client-IsLinked host (some pcb) false web l)))
  ]

  pub tcp_server_sent-IsLinked :
      (pcb len : ℕ) (web : Web) → IsLinked web → Links (tcp_server_sent host pcb len web)
  unfolding tcp_server_sent
  tcp_server_sent-IsLinked pcb len web l = elim (Option-cases (find_client (some pcb) web)) [
    | inl e ↦ rw (tcp_server_sent, e) (write_next-IsLinked host (some pcb) web l)
    | inr (h, e) ↦
        rw (tcp_server_sent, e)
          (Holds-bind IsLinked (acknowledge_client h len web) _ (λ web' a.
            write_next-IsLinked host (some pcb) web'
              (acknowledge_client-IsLinked h len web l web' a)))
  ]

pub tcp_server_accept-IsLinked :
    (pcb : Option ℕ) (ok : Bool) (web : Web) → IsLinked web → Links (tcp_server_accept pcb ok web)
unfolding tcp_server_accept
tcp_server_accept-IsLinked none ok web l = Holds-some IsLinked _ l
tcp_server_accept-IsLinked (some pcb) false web l = Holds-some IsLinked _ l
tcp_server_accept-IsLinked (some pcb) true web l =
    Holds-bind IsLinked (add_client pcb web) _ (λ (client, web') a.
      Holds-bind IsLinked client _
        (λ h e. Holds-some IsLinked _ (add_client-IsLinked pcb web l (client, web') a)))

pub tcp_server_err-IsLinked :
    (pcb : ℕ) (web : Web) → IsLinked web → IsLinked (tcp_server_err pcb web)
unfolding tcp_server_err
tcp_server_err-IsLinked pcb web l = elim (Option-cases (find_client (some pcb) web)) [
  | inl e ↦ rw (tcp_server_err, e) l
  | inr (h, e) ↦ rw (tcp_server_err, e) (delete-IsLinked (some pcb) web l)
]

module _ (host : Host) (app : App) where
  -- The client as `is_ready` leaves it.
  readied-IsLinked :
      (h : ℕ) (web : Web) (client client' : WebClient) (ready : Bool)
      → find_key h web.clients ≡ some client
      → is_ready host client ≡ some (ready, client')
      → IsLinked web
      → IsLinked (modify h (λ c. client') web)
  readied-IsLinked h web client client' ready found e l =
      let (handle, pcb, mark) = is_ready_same host client (ready, client') e in
      modify-IsLinked h (λ c. client') web
        (λ c at_h.
          let same : client ≡ c = only (sym found ∙ at_h) in
          (
            handle ∙ ap (λ d. d.handle) same,
            inl (pcb ∙ ap (λ d. d.pcb) same, mark ∙ ap (λ d. d.closed) same),
          ))
        l
    where
      only : {c d : WebClient} → some c ≡ some d → c ≡ d
      only e = cc

  -- What follows when a request is whole; `next` is for the requests after it.
  served-IsLinked :
      (ready : Bool) (fuel h : ℕ) (client' : WebClient) (web1 : Web)
      → ((web : Web) → IsLinked web → Links (serve_all host app fuel h web))
      → IsLinked web1
      → Links (elim ready [
        | false ↦ some web1
        | true ↦ (do
          web2 ←
              (if client'.websocket
                then process_websocket host app h web1
                else process_rqst host app h web1)
          web3 ← reset_client host h web2
          serve_all host app fuel h web3)
      ])
  served-IsLinked false fuel h client' web1 next l1 = Holds-some IsLinked _ l1
  served-IsLinked true fuel h client' web1 next l1 = Holds-bind IsLinked _ _ (λ web2 e2.
      let l2 : IsLinked web2 =
        Holds-if IsLinked client'.websocket _ _ (process_websocket-IsLinked host app h web1 l1)
          (process_rqst-IsLinked host app h web1 l1) web2 e2 in
      Holds-bind IsLinked (reset_client host h web2) _
        (λ web3 e3. next web3 (reset_client-IsLinked host h web2 l2 web3 e3)))

  serve_all-IsLinked :
      (fuel h : ℕ) (web : Web) → IsLinked web → Links (serve_all host app fuel h web)
  unfolding serve_all
  serve_all-IsLinked zero h web l = λ r e. cc
  serve_all-IsLinked (suc fuel) h web l =
      Holds-bind IsLinked (find_key h web.clients) _ (λ client found.
        Holds-bind IsLinked (is_ready host client) _ (λ (ready, client') e.
          served-IsLinked ready fuel h client' _ (serve_all-IsLinked fuel h)
            (readied-IsLinked h web client client' ready found e l)))

  pub tcp_server_recv-IsLinked :
      (fuel pcb : ℕ) (bytes : Option (List ℕ)) (web : Web)
      → IsLinked web
      → Links (tcp_server_recv host app fuel pcb bytes web)
  unfolding tcp_server_recv
  tcp_server_recv-IsLinked fuel pcb none web l = close_client-IsLinked host (some pcb) true web l
  tcp_server_recv-IsLinked fuel pcb (some []) web l = Holds-some IsLinked _ l
  tcp_server_recv-IsLinked fuel pcb (some (x ∷ bytes)) web l =
      elim (Option-cases (find_client (some pcb) web)) [
        | inl e ↦ rw (tcp_server_recv, e) (Holds-some IsLinked _ (note-IsLinked _ web l))
        | inr (h, e) ↦
            rw (tcp_server_recv, e)
              (serve_all-IsLinked fuel h _
                (note-IsLinked _ _ (kept h _ web (λ c. refl) (λ c. refl) (λ c. refl) l)))
      ]
