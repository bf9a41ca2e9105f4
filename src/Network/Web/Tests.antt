-- ===== src/Network/Web/Tests.antt =====
-- A server with one client, which asks for a web socket without a key.
use picolibs.Base.{
  ℕ, ◌<◌, ◌≤◌, ◌≡◌, refl, true, false, none, some, List, [], ◌∷◌, ◌++◌, arith, find_key, codes,
  take,
}
use picolibs.Network.Http.{
  header, header_at, header_index, header_parts, index_from, start_token, is_header, is_complete,
  clear, find_other, find_last, request_type,
}
use picolibs.Network.Http.Parse.{parse_request, parse_body, lines_from, content_length}
use picolibs.Util.Text.{find_first_of, split}
use picolibs.Util.Txt.{find_text}
use picolibs.Network.Client.{Client, add_to_rqst, rqst_is_ready}
use picolibs.Network.Web.Handles.{next_handle_returns}
use picolibs.Network.Web.Linked.{IsLinked}
use picolibs.Network.Web.Linked.Reach.{accepted, handle_event, at_start, after, Reaches-IsLinked}
use picolibs.Network.Web.Deleted.{tcp_server_recv_faults}
use picolibs.Network.Web.Serve.Callbacks.{tcp_server_accept, tcp_server_recv}
use picolibs.Network.Web.{
  Host, WebClient, Web, no_clients, new_client, add_client, advance, next_free, next_handle,
}
use picolibs.Network.Web.Serve.{App, is_upgrade}

-- A host that takes all that it is given.
abbrev host : Host
host = record {
  sndbuf = λ log pcb. 1460;
  write_ok = λ log pcb bytes. true;
  close_ok = λ log pcb. true;
  tcp_mss = 1460;
  idle = λ log h. 0;
  http_idle_time = 1;
  ws_idle_time = 0;
  ws_close_wait = 5;
  stoul = λ text. none;
  sscanf_x = λ text. none;
  unset = 0;
  parse_fuel = 8;
  accept_key = λ text. text;
}

abbrev app : App
app = record {
  http_callback = λ log h http. record { handled = false; close = true; http = http; calls = [] };
  message_callback = none;
}

abbrev connected : Web
connected = record {
  clients = (1000, new_client 7 1000) ∷ [];
  pcbs = (7, 1000) ∷ [];
  next_handle = 1000;
  log = [];
}

connects : handle_event host app (accepted (some 7) true) no_clients ≡ some connected
unfolding handle_event tcp_server_accept add_client next_handle next_free advance
connects = refl

-- `A` and the upgrade as the lines of the request.
abbrev request : List ℕ
request = 65 ∷ 13 ∷ 10 ∷ (codes "Upgrade: websocket" ++ (13 ∷ 10 ∷ 13 ∷ 10 ∷ []))

abbrev asking : Client
asking = record {
  rqst = request;
  http = record {
    headers = (65 ∷ []) ∷ codes "Upgrade: websocket" ∷ [];
    body_offset = 25;
    body_size = 0;
    body = some 25;
    post_data = [];
    user_data = [];
  };
}

asking-upgrade : header (codes "Upgrade") asking.http ≡ some (codes "websocket")
unfolding header header_index index_from is_header header_at header_parts find_first_of find_text
    find_other find_last
asking-upgrade = refl

asking-bad : is_upgrade asking.http ≡ some false
unfolding is_upgrade header header_index index_from is_header header_at header_parts find_first_of
    find_text find_other find_last
asking-bad = refl

-- The client has sent the request but for its last line.
abbrev waiting : WebClient
waiting = record (new_client 7 1000) {
  requests = record { rqst = take 24 request; http = (new_client 7 1000).requests.http };
}

abbrev with_request : Web
with_request = record connected { clients = (1000, waiting) ∷ [] }

waiting-pcb : waiting.pcb ≡ some 7
unfolding new_client
waiting-pcb = refl

waiting-plain : waiting.websocket ≡ false
unfolding new_client
waiting-plain = refl

waiting-empty : waiting.sendbuf ≡ []
unfolding new_client
waiting-empty = refl

asking-whole :
    rqst_is_ready host.stoul host.sscanf_x host.unset host.parse_fuel
      (add_to_rqst (10 ∷ []) waiting.requests)
    ≡ some (true, asking)
unfolding rqst_is_ready parse_request parse_body lines_from content_length header_index index_from
    is_header find_first_of find_text add_to_rqst new_client clear is_complete request_type
    start_token split
asking-whole = refl

Reaches-IsLinked_example : IsLinked connected
Reaches-IsLinked_example =
    Reaches-IsLinked host connected
      (after app (accepted (some 7) true) no_clients connected at_start connects)

next_handle_returns_example :
    (h : ℕ) × (next_handle connected ≡ some h)
    × (find_key h connected.clients ≡ none)
    × (1000 < h)
    × (h ≤ 1002)
next_handle_returns_example = next_handle_returns connected (omega arith)

tcp_server_recv_faults_example : tcp_server_recv host app 1 7 (some (10 ∷ [])) with_request ≡ none
tcp_server_recv_faults_example =
    tcp_server_recv_faults host 7 1000 (λ log. refl) app 0 10 [] waiting asking with_request refl
      refl waiting-pcb waiting-plain waiting-empty asking-whole asking-upgrade asking-bad
