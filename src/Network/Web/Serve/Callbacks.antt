-- ===== src/Network/Web/Serve/Callbacks.antt =====
-- What lwIP calls: a connection, data, an acknowledgement, a poll and an error (network/web.cpp, `tcp_server_*`).
use picolibs.Base.{
  ℕ, zero, suc, ◌+◌, Bool, true, false, not, ◌&&◌, Option, none, some, List, [], ◌∷◌, ltb, ◌==◌,
  if◌then◌else◌, ◌>>=◌, u32, length, drop, find_key,
}
use picolibs.Network.Client.{add_to_rqst, rqst_is_ready, reset_rqst}
use picolibs.Network.Ws.{fail, success, fault, parse_packet}
use picolibs.Network.Web.{
  received, Host, WebClient, Web, note, modify, find_client, mark_for_close, close_client,
  write_next, add_client, delete_client, acknowledge_client,
}
use picolibs.Network.Web.Serve.{App, process_rqst, process_websocket, send_websocket, opcode_close}

-- `rqstIsReady` of a web socket. The header that a packet leaves that is not whole is not read.
unfoldable pub packet_is_ready : WebClient → Option (Bool × WebClient)
packet_is_ready client = elim (parse_packet client.requests.rqst) [
  | fail ↦ some (false, client)
  | fault ↦ none
  | success header plain ↦ some (
    true,
    record client {
      requests = record { rqst = plain; http = client.requests.http };
      wshdr = header;
    },
  )
]

-- `resetRqst` of a web socket.
unfoldable pub reset_packet : WebClient → WebClient
reset_packet client =
    let ii = u32 (client.wshdr.start + client.wshdr.length) in
    let rqst = client.requests.rqst in
    record client {
      requests = record {
        rqst = if ltb ii (length rqst) then drop ii rqst else [];
        http = client.requests.http;
      };
    }

module _ (host : Host) where
  unfoldable pub is_ready : WebClient → Option (Bool × WebClient)
  is_ready client = if client.websocket then packet_is_ready client else (do
    (ready, requests') ←
        rqst_is_ready host.stoul host.sscanf_x host.unset host.parse_fuel client.requests
    some (ready, record client { requests = requests' }))

  unfoldable pub reset_client : ℕ → Web → Option Web
  reset_client h web = do
    client ← find_key h web.clients
    some (
        modify h
          (λ c.
            if c.websocket then reset_packet c else record c { requests = reset_rqst c.requests })
          web)

  -- `isIdle`
  unfoldable pub is_idle : WebClient → Web → Bool
  is_idle client web =
      let minutes = host.idle web.log client.handle in
      if client.closed
      then false
      else if client.websocket
      then (if ltb 0 host.ws_idle_time
          then (if client.ws_close_sent
              then ltb host.ws_close_wait minutes
              else ltb host.ws_idle_time minutes)
          else false)
      else (if ltb 0 host.http_idle_time then ltb host.http_idle_time minutes else false)

  -- What `tcp_server_poll` does with an idle client.
  unfoldable pub close_if_idle : ℕ → ℕ → Web → Option Web
  close_if_idle pcb h web = do
    client ← find_key h web.clients
    if not (is_idle client web)
        then some web
        else if client.websocket && not client.ws_close_sent
        then send_websocket host client.pcb opcode_close []
            (modify h (λ c. record c { ws_close_sent = true }) web)
        else some (mark_for_close (some pcb) web)

  unfoldable pub tcp_server_poll : ℕ → Web → Option Web
  tcp_server_poll pcb web = elim (find_client (some pcb) web) [
    | none ↦ some web
    | some h ↦ (do
      client ← find_key h web.clients
      let same : Bool = elim client.pcb [ none ↦ false | some p ↦ p == pcb ]
      if same
          then (do
            web1 ←
                (if ltb 0 (length client.sendbuf) then write_next host client.pcb web else some web)
            web2 ← close_if_idle pcb h web1
            client' ← find_key h web2.clients
            if client'.closed then close_client host (some pcb) false web2 else some web2)
          else close_client host (some pcb) false web)
  ]

  unfoldable pub tcp_server_sent : ℕ → ℕ → Web → Option Web
  tcp_server_sent pcb len web = do
    web' ← elim (find_client (some pcb) web) [
      | none ↦ some web
      | some h ↦ acknowledge_client h len web
    ]
    write_next host (some pcb) web'

-- `tcp_server_accept`: its messages read the handle of the new client, also when there is none.
unfoldable pub tcp_server_accept : Option ℕ → Bool → Web → Option Web
tcp_server_accept none ok web = some web
tcp_server_accept (some pcb) false web = some web
tcp_server_accept (some pcb) true web = do
  (client, web') ← add_client pcb web
  h ← client
  some web'

unfoldable pub tcp_server_err : ℕ → Web → Web
tcp_server_err pcb web = elim (find_client (some pcb) web) [
  | none ↦ web
  | some h ↦ delete_client (some pcb) web
]

module _ (host : Host) (app : App) where
  -- The loop of `tcp_server_recv` over the requests of a client, with fuel. The client is looked up again in it, but
  -- what the search answers is not used.
  unfoldable pub serve_all : ℕ → ℕ → Web → Option Web
  serve_all zero h web = none
  serve_all (suc fuel) h web = do
    client ← find_key h web.clients
    (ready, client') ← is_ready host client
    let web1 = modify h (λ c. client') web
    elim ready [
      | false ↦ some web1
      | true ↦ (do
        web2 ←
            (if client'.websocket
              then process_websocket host app h web1
              else process_rqst host app h web1)
        web3 ← reset_client host h web2
        serve_all fuel h web3)
    ]

  -- `tcp_server_recv`: no data is the end of the connection.
  unfoldable pub tcp_server_recv : ℕ → ℕ → Option (List ℕ) → Web → Option Web
  tcp_server_recv fuel pcb none web = close_client host (some pcb) true web
  tcp_server_recv fuel pcb (some []) web = some web
  tcp_server_recv fuel pcb (some (x ∷ bytes)) web =
      let received_all = note (received pcb (length (x ∷ bytes))) in
      elim (find_client (some pcb) web) [
        | none ↦ some (received_all web)
        | some h ↦ serve_all fuel h (
            received_all
              (modify h (λ c. record c { requests = add_to_rqst (x ∷ bytes) c.requests }) web))
      ]
