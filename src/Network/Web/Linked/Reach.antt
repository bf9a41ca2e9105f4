-- ===== src/Network/Web/Linked/Reach.antt =====
-- The states that the server reaches from the first one by the callbacks of lwIP and by calls of the application.
use picolibs.Base.{ℕ, ◌≡◌, Bool, Option, none, some, List, [], ◌∷◌, Holds-some}
use picolibs.Network.Web.{Host, Web, no_clients}
use picolibs.Network.Web.Serve.{App, AppCall, run_calls}
use picolibs.Network.Web.Serve.Callbacks.{
  tcp_server_poll, tcp_server_sent, tcp_server_accept, tcp_server_err, tcp_server_recv,
}
use picolibs.Network.Web.Linked.{IsLinked}
use picolibs.Network.Web.Linked.Steps.{Links}
use picolibs.Network.Web.Linked.Serving.{run_calls-IsLinked}
use picolibs.Network.Web.Linked.Callbacks.{
  tcp_server_poll-IsLinked, tcp_server_sent-IsLinked, tcp_server_accept-IsLinked,
  tcp_server_err-IsLinked, tcp_server_recv-IsLinked,
}

-- What calls the server.
pub data Event : Type 0 where
  accepted : Option ℕ → Bool → Event
  arrived : ℕ → ℕ → Option (List ℕ) → Event
  acknowledged : ℕ → ℕ → Event
  polled : ℕ → Event
  failed : ℕ → Event
  called : AppCall → Event

unfoldable pub handle_event : Host → App → Event → Web → Option Web
handle_event host app (accepted pcb ok) web = tcp_server_accept pcb ok web
handle_event host app (arrived fuel pcb bytes) web = tcp_server_recv host app fuel pcb bytes web
handle_event host app (acknowledged pcb len) web = tcp_server_sent host pcb len web
handle_event host app (polled pcb) web = tcp_server_poll host pcb web
handle_event host app (failed pcb) web = some (tcp_server_err pcb web)
handle_event host app (called call) web = run_calls host (call ∷ []) web

-- The application may be another one at each event: it is what answers then.
pub data Reaches (host : Host) : Web → Type 0 where
  at_start : Reaches host no_clients
  after :
      (app : App) (event : Event) (web web' : Web)
      → Reaches host web
      → handle_event host app event web ≡ some web'
      → Reaches host web'

no_clients-IsLinked : IsLinked no_clients
no_clients-IsLinked = record {
  to_client = λ p h e. absurd (nothing e);
  to_pcb = λ h client e. absurd (nothing e);
  one_pcb = λ p q h e f. absurd (nothing e);
}
  where
    nothing : {A : Type 0} {a : A} → none ≡ some a → ⊥
    nothing e = cc

module _ (host : Host) where
  handle_event-IsLinked :
      (app : App) (event : Event) (web : Web)
      → IsLinked web
      → Links (handle_event host app event web)
  unfolding handle_event
  handle_event-IsLinked app (accepted pcb ok) web l = tcp_server_accept-IsLinked pcb ok web l
  handle_event-IsLinked app (arrived fuel pcb bytes) web l =
      tcp_server_recv-IsLinked host app fuel pcb bytes web l
  handle_event-IsLinked app (acknowledged pcb len) web l =
      tcp_server_sent-IsLinked host pcb len web l
  handle_event-IsLinked app (polled pcb) web l = tcp_server_poll-IsLinked host pcb web l
  handle_event-IsLinked app (failed pcb) web l =
      Holds-some IsLinked _ (tcp_server_err-IsLinked pcb web l)
  handle_event-IsLinked app (called call) web l = run_calls-IsLinked host (call ∷ []) web l

  -- In every state that the server reaches by callbacks of lwIP and by calls of the application, whatever lwIP, the clock
  -- and the application answer, its two maps agree: each connection leads to a client that is there, under its own
  -- handle, with that connection, or marked for closing and without one; each client has a connection; and no two connections
  -- share a client.
  pub Reaches-IsLinked : (web : Web) → Reaches host web → IsLinked web
  Reaches-IsLinked web at_start = no_clients-IsLinked
  Reaches-IsLinked web (after app event before web' r e) =
      handle_event-IsLinked app event before (Reaches-IsLinked before r) web' e
