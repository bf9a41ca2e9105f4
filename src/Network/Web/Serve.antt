-- ===== src/Network/Web/Serve.antt =====
-- What the server does with a request and with a message of a web socket, and the callbacks that lwIP calls
-- (network/web.cpp).
pub mod Callbacks
use picolibs.Base.{
  ℕ, zero, suc, ◌+◌, ◌-◌, Bool, true, false, not, ◌&&◌, Option, none, some, List, [], ◌∷◌, ◌++◌,
  ltb, leb, ◌==◌, if◌then◌else◌, ◌>>=◌, u32, length, take, drop, find_key, modify_key, map, codes,
}
use picolibs.Util.Txt.{find_text}
use picolibs.Network.Http.{HttpRequest, same_text, substr, header, header_index, request_type}
use picolibs.Network.Http.Parse.{parse_request}
use picolibs.Network.Client.{Client}
use picolibs.Network.Ws.{Header, build_packet}
use picolibs.Network.Web.{
  Effect, served, messaged, Host, WebClient, Web, note, modify, find_client, mark_for_close,
  close_client, send_buffer,
}

-- What an application calls.
pub data AppCall : Type 0 where
  call_send_data : ℕ → List ℕ → AppCall
  call_send_message : ℕ → List ℕ → AppCall
  call_broadcast : List ℕ → AppCall

-- The answer of an HTTP callback: whether it has handled the request, whether to close, the request as it leaves it, and
-- what it calls.
pub record Answer : Type 0 where
  pub handled : Bool
  pub close : Bool
  pub http : HttpRequest
  pub calls : List AppCall

-- The application's callbacks. What they answer may depend on all that has happened, which the log tells, newest first,
-- as they may keep a state. Without an HTTP callback, a request is not handled.
pub record App : Type 0 where
  pub http_callback : List Effect → ℕ → HttpRequest → Answer
  pub message_callback : Option (List Effect → ℕ → List ℕ → List AppCall)

-- `WEBSOCKET_OPCODE_TEXT`, `_CLOSE`, `_PING`, `_PONG`
abbrev pub opcode_text : ℕ
opcode_text = 1

abbrev pub opcode_close : ℕ
opcode_close = 8

abbrev pub opcode_ping : ℕ
opcode_ping = 9

abbrev pub opcode_pong : ℕ
opcode_pong = 10

module _ (host : Host) where
  -- No bytes of a mask are needed.
  unfoldable pub send_websocket : Option ℕ → ℕ → List ℕ → Web → Option Web
  send_websocket pcb opc payload web = do
    msg ← build_packet opc payload false (λ i. 0)
    send_buffer host pcb msg web

  -- A handle is looked up, and then its connection; a client that is marked has none.
  unfoldable pub send_data : ℕ → List ℕ → Web → Option Web
  send_data h bytes web = do
    client ← find_key h web.clients
    elim (find_client client.pcb web) [
      | none ↦ some web
      | some h' ↦ if h' == h then send_buffer host client.pcb bytes web else some web
    ]

  unfoldable pub send_message : ℕ → List ℕ → Web → Option Web
  send_message h message web = do
    client ← find_key h web.clients
    elim (find_client client.pcb web) [
      | none ↦ some web
      | some h' ↦ if h' == h then send_websocket client.pcb opcode_text message web else some web
    ]

  -- The loop of `broadcast_websocket`, over the handles.
  unfoldable pub broadcast_to : List ℕ → List ℕ → Web → Option Web
  broadcast_to [] text web = some web
  broadcast_to (h ∷ handles) text web = do
    client ← find_key h web.clients
    web' ← (if client.websocket then send_websocket client.pcb opcode_text text web else some web)
    broadcast_to handles text web'

  unfoldable pub broadcast_websocket : List ℕ → Web → Option Web
  broadcast_websocket text web =
      broadcast_to (map (λ (e : ℕ × WebClient). e.0) web.clients) text web

  unfoldable pub run_calls : List AppCall → Web → Option Web
  run_calls [] web = some web
  run_calls (call_send_data h bytes ∷ calls) web = do
    web' ← send_data h bytes web
    run_calls calls web'
  run_calls (call_send_message h text ∷ calls) web = do
    web' ← send_message h text web
    run_calls calls web'
  run_calls (call_broadcast text ∷ calls) web = do
    web' ← broadcast_websocket text web
    run_calls calls web'

-- `==` of a `std::string`, and `find` on one
abbrev pub contains_text : List ℕ → List ℕ → Bool
contains_text text str = elim (find_text text str) [ none ↦ false | some i ↦ true ]

-- Whether a request asks for a web socket, with all that it needs.
unfoldable pub is_upgrade : HttpRequest → Option Bool
is_upgrade http = do
  host_name ← header (codes "Host") http
  key ← header (codes "Sec-WebSocket-Key") http
  connection ← header (codes "Connection") http
  upgrade ← header (codes "Upgrade") http
  version ← header (codes "Sec-WebSocket-Version") http
  let has_origin : Bool = elim (header_index (codes "Origin") 0 http) [
    | none ↦ false
    | some i ↦ ltb 0 i
  ]
  some (
      contains_text (codes "Upgrade") connection
      && has_origin
      && same_text upgrade (codes "websocket")
      && same_text version (codes "13")
      && ltb 0 (length host_name))

module _ (host : Host) where
  -- `accept_key` of the host is the digest in base 64.
  unfoldable pub upgrade_answer : HttpRequest → Option (List ℕ)
  upgrade_answer http = do
    key ← header (codes "Sec-WebSocket-Key") http
    some (
        codes "HTTP/1.1 101 Switching Protocols"
        ++ (13 ∷ 10 ∷ codes "Upgrade: websocket")
        ++ (13 ∷ 10 ∷ codes "Connection: Upgrade")
        ++ (13 ∷ 10 ∷ codes "Sec-WebSocket-Accept: ")
        ++ host.accept_key (key ++ codes "258EAFA5-E914-47DA-95CA-C5AB0DC85B11")
        ++ (13 ∷ 10 ∷ 13 ∷ 10 ∷ []))

  unfoldable pub open_websocket : ℕ → Web → Option Web
  open_websocket h web = do
    client ← find_key h web.clients
    good ← is_upgrade client.requests.http
    if good
        then (do
          resp ← upgrade_answer client.requests.http
          web' ← send_buffer host client.pcb resp web
          some (
              modify h
                (λ c. record c {
                  websocket = true;
                  requests = record { rqst = []; http = c.requests.http };
                })
                web'))
        else some web

module _ (host : Host) (app : App) where
  -- The answer to a request, and whether to close.
  unfoldable pub process_http_rqst : ℕ → Web → Option (Bool × Web)
  process_http_rqst h web = do
    client ← find_key h web.clients
    let answer = app.http_callback web.log h client.requests.http
    web' ← run_calls host answer.calls (
        modify h
          (λ c. record c { requests = record { rqst = c.requests.rqst; http = answer.http } })
          (note (served h) web))
    client' ← find_key h web'.clients
    web'' ←
        (if answer.handled
          then some web'
          else send_buffer host client'.pcb
              (codes "HTTP/1.0 404 NOT_FOUND" ++ (13 ∷ 10 ∷ 13 ∷ 10 ∷ [])) web')
    some (answer.close, web'')

  -- A POST request is parsed again, with its body.
  unfoldable pub parse_again : ℕ → Web → Option Web
  parse_again h web = do
    client ← find_key h web.clients
    kind ← request_type client.requests.http
    if same_text kind (codes "POST")
        then (do
          (rqst', http', ret) ←
              parse_request host.stoul host.sscanf_x host.unset host.parse_fuel client.requests.rqst
                true client.requests.http
          some (modify h (λ c. record c { requests = record { rqst = rqst'; http = http' } }) web))
        else some web

  -- `process_rqst` of a client that is not a web socket.
  unfoldable pub process_rqst : ℕ → Web → Option Web
  process_rqst h web = do
    client ← find_key h web.clients
    upgrade ← header (codes "Upgrade") client.requests.http
    (close, web') ←
        (if same_text upgrade (codes "websocket")
          then (do web' ← open_websocket host h web; some (true, web'))
          else (do web' ← parse_again h web; process_http_rqst h web'))
    client' ← find_key h web'.clients
    if not client'.websocket && close then close_client host client'.pcb false web' else some web'

  -- The answer to a closing packet: one of the same kind, unless it was sent before.
  unfoldable pub answer_close : ℕ → List ℕ → Web → Option Web
  answer_close h payload web = do
    client ← find_key h web.clients
    if client.ws_close_sent
        then some web
        else send_websocket host client.pcb opcode_close payload
            (modify h (λ c. record c { ws_close_sent = true }) web)

  unfoldable pub process_websocket : ℕ → Web → Option Web
  process_websocket h web = do
    client ← find_key h web.clients
    payload ← substr client.wshdr.start client.wshdr.length client.requests.rqst
    let opc = client.wshdr.opcode
    if opc == opcode_text
        then elim app.message_callback [
          | none ↦ some web
          | some callback ↦
              run_calls host (callback web.log h payload) (note (messaged h payload) web)
        ]
        else if opc == opcode_ping
        then send_websocket host client.pcb opcode_pong payload web
        else if opc == opcode_close
        then (do
          web' ← answer_close h payload web
          client' ← find_key h web'.clients
          some (mark_for_close client'.pcb web'))
        else some web
