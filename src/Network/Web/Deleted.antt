-- ===== src/Network/Web/Deleted.antt =====
-- What becomes of a client that is deleted while `tcp_server_recv` serves it (network/web.cpp).
use picolibs.Base.{
  ℕ, suc, ◌≡◌, refl, ap, ◌∙◌, true, false, none, some, List, [], ◌∷◌, ◌==◌, ==_iff, find_key,
  find_key-erase_key, length, codes,
}
use picolibs.Network.Http.{header}
use picolibs.Network.Client.{Client, add_to_rqst, rqst_is_ready}
use picolibs.Network.Send.Laws.{same_text_refl}
use picolibs.Network.Send.{acknowledge_queue}
use picolibs.Network.Web.{
  Host, WebClient, Web, closing, received, note, modify, set_closed, find_client, delete_client,
  acknowledge_client, close_idle, close_client,
}
use picolibs.Network.Web.Serve.{App, is_upgrade, open_websocket, process_rqst}
use picolibs.Network.Web.Serve.Callbacks.{is_ready, reset_client, serve_all, tcp_server_recv}
use picolibs.Network.Web.Linked.{find_key-same}

find_client_found :
    (p h : ℕ) (client : WebClient) (web : Web)
    → find_key p web.pcbs ≡ some h
    → find_key h web.clients ≡ some client
    → find_client (some p) web ≡ some h
unfolding find_client
find_client_found p h client web e f = rw (e, f) refl

-- After the entries of a connection are deleted, its client's handle leads to nothing.
delete_client_gone :
    (p h : ℕ) (web : Web)
    → find_key p web.pcbs ≡ some h
    → find_key h (delete_client (some p) web).clients ≡ none
unfolding delete_client
delete_client_gone p h web e =
    let same : (h == h) ≡ true = (==_iff h h).1 refl in
    rw (delete_client, e) (find_key-erase_key h h web.clients ∙ rw same refl)

find_key-modified :
    (h : ℕ) (f : WebClient → WebClient) (client : WebClient) (web : Web)
    → find_key h web.clients ≡ some client
    → find_key h (modify h f web).clients ≡ some (f client)
unfolding modify
find_key-modified h f client web found = find_key-same h f web client found

modify-pcbs : (h : ℕ) (f : WebClient → WebClient) (web : Web) → (modify h f web).pcbs ≡ web.pcbs
unfolding modify
modify-pcbs h f web = refl

acknowledge_queue-nil : acknowledge_queue 1 0 [] ≡ some []
unfolding acknowledge_queue
acknowledge_queue-nil = refl

acknowledge_nothing :
    (h : ℕ) (client : WebClient) (web : Web)
    → find_key h web.clients ≡ some client
    → client.sendbuf ≡ []
    → acknowledge_client h 0 web ≡ some (modify h (λ c. record c { sendbuf = [] }) web)
unfolding acknowledge_client
acknowledge_nothing h client web f empty =
    rw (acknowledge_client, f, empty, acknowledge_queue-nil) refl

module _ (host : Host) (p h : ℕ) (closes : (log : _) → host.close_ok log (some p) ≡ true) where
  close_idle_gone :
      (client : WebClient) (web : Web)
      → find_key p web.pcbs ≡ some h
      → find_key h web.clients ≡ some client
      → client.sendbuf ≡ []
      → (web' : Web) × (close_idle host (some p) h web ≡ some web')
        × (find_key h web'.clients ≡ none)
  unfolding close_idle note
  close_idle_gone client web e f empty = (
    delete_client (some p) (note (closing (some p)) web),
    rw (close_idle, f, empty, closes web.log) refl,
    delete_client_gone p h _ e,
  )

  -- A client that has nothing more to send is deleted at once.
  close_client_gone :
      (client : WebClient) (web : Web)
      → find_key p web.pcbs ≡ some h
      → find_key h web.clients ≡ some client
      → client.sendbuf ≡ []
      → (web' : Web) × (close_client host (some p) false web ≡ some web')
        × (find_key h web'.clients ≡ none)
  unfolding close_client set_closed
  close_client_gone client web e f empty =
      let f1 = find_key-modified h set_closed client web f in
      let web2 = modify h (λ c. record c { sendbuf = [] }) (modify h set_closed web) in
      let f2 =
        find_key-modified h (λ c. record c { sendbuf = [] }) _ (modify h set_closed web) f1 in
      let e2 : find_key p web2.pcbs ≡ some h =
        ap (find_key p) (modify-pcbs h _ (modify h set_closed web) ∙ modify-pcbs h set_closed web)
        ∙ e in
      let (web', closed, gone) = close_idle_gone _ web2 e2 f2 refl in
      (
        web',
        rw
            (
              close_client,
              find_client_found p h client web e f,
              acknowledge_nothing h _ (modify h set_closed web) f1 empty,
            )
            closed,
        gone,
      )

  open_websocket-bad :
      (client : WebClient) (web : Web)
      → find_key h web.clients ≡ some client
      → is_upgrade client.requests.http ≡ some false
      → open_websocket host h web ≡ some web
  unfolding open_websocket
  open_websocket-bad client web f bad = rw (open_websocket, f, bad) refl

  -- A client whose request asks for a web socket, but not with all that it needs.
  process_rqst_gone :
      (app : App) (client : WebClient) (web : Web)
      → find_key p web.pcbs ≡ some h
      → find_key h web.clients ≡ some client
      → client.pcb ≡ some p
      → client.websocket ≡ false
      → client.sendbuf ≡ []
      → header (codes "Upgrade") client.requests.http ≡ some (codes "websocket")
      → is_upgrade client.requests.http ≡ some false
      → (web' : Web) × (process_rqst host app h web ≡ some web') × (find_key h web'.clients ≡ none)
  unfolding process_rqst
  process_rqst_gone app client web e f pcb plain empty upgrade bad =
      let (web', closed, gone) = close_client_gone client web e f empty in
      (
        web',
        rw
            (
              process_rqst,
              f,
              upgrade,
              same_text_refl (codes "websocket"),
              open_websocket-bad client web f bad,
              f,
              plain,
              pcb,
            )
            closed,
        gone,
      )

  reset_client-gone : (web : Web) → find_key h web.clients ≡ none → reset_client host h web ≡ none
  unfolding reset_client
  reset_client-gone web gone = rw (reset_client, gone) refl

  serve_all-gone :
      (app : App) (fuel : ℕ) (client client' : WebClient) (web web' : Web)
      → find_key h web.clients ≡ some client
      → is_ready host client ≡ some (true, client')
      → client'.websocket ≡ false
      → process_rqst host app h (modify h (λ c. client') web) ≡ some web'
      → find_key h web'.clients ≡ none
      → serve_all host app (suc fuel) h web ≡ none
  unfolding serve_all
  serve_all-gone app fuel client client' web web' f ready plain done gone =
      rw (serve_all, f, ready, done, plain, reset_client-gone web' gone) refl

  -- A client that is no web socket, and to which nothing is to be sent, sends the rest of a request that asks for a web
  -- socket without all that this needs; and lwIP closes the connection when asked. Then `tcp_server_recv` closes the
  -- connection, which deletes the client, and goes on to use the client: an access to memory that is freed.
  pub tcp_server_recv_faults :
      (app : App) (fuel x : ℕ) (bytes : List ℕ) (client : WebClient) (requests' : Client)
      (web : Web)
      → find_key p web.pcbs ≡ some h
      → find_key h web.clients ≡ some client
      → client.pcb ≡ some p
      → client.websocket ≡ false
      → client.sendbuf ≡ []
      → rqst_is_ready host.stoul host.sscanf_x host.unset host.parse_fuel
          (add_to_rqst (x ∷ bytes) client.requests)
        ≡ some (true, requests')
      → header (codes "Upgrade") requests'.http ≡ some (codes "websocket")
      → is_upgrade requests'.http ≡ some false
      → tcp_server_recv host app (suc fuel) p (some (x ∷ bytes)) web ≡ none
  unfolding tcp_server_recv is_ready note modify
  tcp_server_recv_faults app fuel x bytes client requests' web e f pcb plain empty whole upgrade
        bad =
      let add : WebClient → WebClient =
        λ c. record c { requests = add_to_rqst (x ∷ bytes) c.requests } in
      let web0 = note (received p (length (x ∷ bytes))) (modify h add web) in
      let f0 : find_key h web0.clients ≡ some (add client) = find_key-modified h add client web f in
      let client1 : WebClient = record (add client) { requests = requests' } in
      let ready : is_ready host (add client) ≡ some (true, client1) =
        rw (is_ready, plain, whole) refl in
      let f1 : find_key h (modify h (λ c. client1) web0).clients ≡ some client1 =
        find_key-modified h (λ c. client1) (add client) web0 f0 in
      let (web', done, gone) =
        process_rqst_gone app client1 (modify h (λ c. client1) web0) e f1 pcb plain empty upgrade
          bad in
      rw (tcp_server_recv, find_client_found p h client web e f)
        (serve_all-gone app fuel (add client) client1 web0 web' f0 ready plain done gone)
