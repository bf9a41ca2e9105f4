-- ===== src/Network/Web.antt =====
-- `WEB` (network/web.{h,cpp}): the clients of the server, the data that waits for them, and how they are closed. A
-- `CLIENT *` is the handle of the client: a client that is deleted has none, and `none` is an access through a pointer
-- to such a client, through the null pointer, or an exception. The log's messages are left out.
pub mod Serve
pub mod Handles
pub mod Linked
pub mod Deleted
mod Tests
use picolibs.Base.{
  ℕ, zero, suc, ◌+◌, ◌-◌, ◌%◌, Bool, true, false, not, ◌&&◌, Option, none, some, List, [], ◌∷◌,
  ◌++◌, ltb, leb, ◌==◌, if◌then◌else◌, ◌>>=◌, u32, length, take, find_key, emplace, erase_key,
  modify_key,
}
use picolibs.Network.Http.{HttpRequest}
use picolibs.Network.Client.{Client}
use picolibs.Network.Ws.{Header}
use picolibs.Network.Send.{SendBuf, acknowledge_queue, get_next_queue, requeue_queue, queue_send}

-- What the server asks of lwIP and of the application, newest first in a log. A connection, an `altcp_pcb *`, is a number.
pub data Effect : Type 0 where
  wrote : ℕ → List ℕ → Effect
  write_refused : ℕ → List ℕ → Effect
  closing : Option ℕ → Effect
  close_refused : Option ℕ → Effect
  received : ℕ → ℕ → Effect
  served : ℕ → Effect
  messaged : ℕ → List ℕ → Effect

-- What lwIP, the clock and the C library answer, by all that was asked of lwIP before, the `TCP_MSS` of
-- lwIP, and the times of the build, in minutes. `parse_fuel` is the fuel of the parser's loop.
pub record Host : Type 0 where
  pub sndbuf : List Effect → ℕ → ℕ
  pub write_ok : List Effect → ℕ → List ℕ → Bool
  pub close_ok : List Effect → Option ℕ → Bool
  pub tcp_mss : ℕ
  pub idle : List Effect → ℕ → ℕ
  pub http_idle_time : ℕ
  pub ws_idle_time : ℕ
  pub ws_close_wait : ℕ
  pub stoul : List ℕ → Option ℕ
  pub sscanf_x : List ℕ → Option ℕ
  pub unset : ℕ
  pub parse_fuel : ℕ
  pub accept_key : List ℕ → List ℕ

-- The members of `CLIENT`.
pub record WebClient : Type 0 where
  pub pcb : Option ℕ
  pub closed : Bool
  pub websocket : Bool
  pub ws_close_sent : Bool
  pub sendbuf : List SendBuf
  pub requests : Client
  pub wshdr : Header
  pub handle : ℕ

-- The members of `WEB` that the clients need. `clients` is `clientHndl_`, `pcbs` is `clientPCB_`.
pub record Web : Type 0 where
  pub clients : List (ℕ × WebClient)
  pub pcbs : List (ℕ × ℕ)
  pub next_handle : ℕ
  pub log : List Effect

-- Before the first client.
abbrev pub no_clients : Web
no_clients = record { clients = []; pcbs = []; next_handle = 999; log = [] }

unfoldable pub note : Effect → Web → Web
note e web = record web { log = e ∷ web.log }

unfoldable pub modify : ℕ → (WebClient → WebClient) → Web → Web
modify h f web = record web { clients = modify_key h f web.clients }

-- `setClosed`
unfoldable pub set_closed : WebClient → WebClient
set_closed client = record client { closed = true; pcb = none }

-- The counter goes on; it leaves 0 out.
unfoldable pub advance : ℕ → ℕ
advance n = if u32 (n + 1) == 0 then 1000 else u32 (n + 1)

-- The loop of `nextHandle`, with fuel. The assertion in it holds always, for its argument is a text.
unfoldable pub next_free : ℕ → List (ℕ × WebClient) → ℕ → Option ℕ
next_free zero clients n = none
next_free (suc fuel) clients n = elim (find_key n clients) [
  | none ↦ some n
  | some client ↦ next_free fuel clients (advance n)
]

unfoldable pub next_handle : Web → Option ℕ
next_handle web = next_free (suc (length web.clients)) web.clients (advance web.next_handle)

-- `CLIENT(pcb)`; the header of a packet is not set yet.
unfoldable pub new_client : ℕ → ℕ → WebClient
new_client pcb h = record {
  pcb = some pcb;
  closed = false;
  websocket = false;
  ws_close_sent = false;
  sendbuf = [];
  requests = record {
    rqst = [];
    http = record {
      headers = [];
      body_offset = 0;
      body_size = 0;
      body = none;
      post_data = [];
      user_data = [];
    };
  };
  wshdr = record {
    fin = 0;
    rsv = 0;
    opcode = 0;
    masked = false;
    payload_len = 0;
    start = 0;
    length = 0;
  };
  handle = h;
}

-- `addClient`: the new client, or the null pointer, and the server.
unfoldable pub add_client : ℕ → Web → Option (Option ℕ × Web)
add_client pcb web = elim (find_key pcb web.pcbs) [
  | some h ↦ some (none, web)
  | none ↦ (do
    h ← next_handle web
    some (
      some h,
      record web {
        clients = emplace h (new_client pcb h) web.clients;
        pcbs = emplace pcb h web.pcbs;
        next_handle = h;
      },
    ))
]

unfoldable pub delete_client : Option ℕ → Web → Web
delete_client none web = web
delete_client (some pcb) web = elim (find_key pcb web.pcbs) [
  | none ↦ web
  | some h ↦ record web { clients = erase_key h web.clients; pcbs = erase_key pcb web.pcbs }
]

-- `findClient(pcb)`; `findClient(handle)` is `find_key` in `clients`.
unfoldable pub find_client : Option ℕ → Web → Option ℕ
find_client pcb web = do p ← pcb; h ← find_key p web.pcbs; client ← find_key h web.clients; some h

unfoldable pub acknowledge_client : ℕ → ℕ → Web → Option Web
acknowledge_client h count web = do
  client ← find_key h web.clients
  queue ← acknowledge_queue (suc (length client.sendbuf)) count client.sendbuf
  some (modify h (λ c. record c { sendbuf = queue }) web)

unfoldable pub mark_for_close : Option ℕ → Web → Web
mark_for_close pcb web = elim (find_client pcb web) [
  | none ↦ web
  | some h ↦ modify h set_closed web
]

-- The room for data, at most that of a segment.
unfoldable pub segment : Host → List Effect → ℕ → ℕ
segment host log pcb =
    if ltb host.tcp_mss (host.sndbuf log pcb) then host.tcp_mss else host.sndbuf log pcb

module _ (host : Host) where
  -- What is left of `close_client` when the client is marked: it waits until there is nothing more to send.
  unfoldable pub close_idle : Option ℕ → ℕ → Web → Option Web
  close_idle pcb h web = do
    client ← find_key h web.clients
    if ltb 0 (length client.sendbuf)
        then some web
        else if host.close_ok web.log pcb
        then some (delete_client pcb (note (closing pcb) web))
        else some (note (close_refused pcb) web)

  unfoldable pub close_client : Option ℕ → Bool → Web → Option Web
  close_client pcb is_closed web = elim (find_client pcb web) [
    | none ↦ some (if is_closed then web else note (closing pcb) web)
    | some h ↦ elim is_closed [
      | true ↦ some (delete_client pcb (note (closing pcb) (modify h set_closed web)))
      | false ↦ (do web' ← acknowledge_client h 0 (modify h set_closed web); close_idle pcb h web')
    ]
  ]

  -- What `write_next` does with the bytes that it has taken out of the queue.
  unfoldable pub write_bytes : ℕ → ℕ → List ℕ → Web → Web
  write_bytes pcb h bytes web =
      if host.write_ok web.log pcb bytes
      then note (wrote pcb bytes) web
      else modify h (λ c. record c { sendbuf = requeue_queue bytes (length bytes) c.sendbuf })
          (note (write_refused pcb bytes) web)

  unfoldable pub write_next : Option ℕ → Web → Option Web
  write_next none web = some web
  write_next (some pcb) web = elim (find_client (some pcb) web) [
    | none ↦ some web
    | some h ↦ (do
      client ← find_key h web.clients
      (ret, bytes, queue) ← get_next_queue (segment host web.log pcb) client.sendbuf
      let web1 = modify h (λ c. record c { sendbuf = queue }) web
      let web2 = if ret then write_bytes pcb h bytes web1 else web1
      client2 ← find_key h web2.clients
      if client2.closed && not (ltb 0 (length client2.sendbuf))
          then close_client (some pcb) false web2
          else some web2)
  ]

  -- The length is a `u16_t`.
  unfoldable pub send_buffer : Option ℕ → List ℕ → Web → Option Web
  send_buffer pcb bytes web = elim (find_client pcb web) [
    | none ↦ some web
    | some h ↦ write_next pcb (
        modify h
          (λ c. record c { sendbuf = queue_send (take (length bytes % 65536) bytes) c.sendbuf })
          web)
  ]
