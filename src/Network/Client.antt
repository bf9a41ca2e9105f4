-- ===== src/Network/Client.antt =====
-- The requests of a `WEB::CLIENT` (network/web.{h,cpp}) that is not a web socket: what has arrived, the request at its
-- front, and the step to the next one.
pub mod Requests
mod Tests
use picolibs.Base.{
  ℕ, Bool, true, false, Option, none, some, List, [], ◌∷◌, ◌++◌, if◌then◌else◌, ◌>>=◌, drop,
}
use picolibs.Network.Http.{HttpRequest, clear, is_complete, request_size}
use picolibs.Network.Http.Parse.{parse_request}

-- The members of `CLIENT` for requests.
pub record Client : Type 0 where
  pub rqst : List ℕ
  pub http : HttpRequest

unfoldable pub add_to_rqst : List ℕ → Client → Client
add_to_rqst str client = record client { rqst = client.rqst ++ str }

-- `rqstIsReady`; the parameters are those of `parse_request`.
module _ (stoul : List ℕ → Option ℕ) (sscanf_x : List ℕ → Option ℕ) (unset fuel : ℕ) where
  unfoldable pub rqst_is_ready : Client → Option (Bool × Client)
  rqst_is_ready client = do
    (rqst', http', ret) ← parse_request stoul sscanf_x unset fuel client.rqst false client.http
    some (ret, record { rqst = rqst'; http = http' })

-- `resetRqst`
unfoldable pub reset_rqst : Client → Client
reset_rqst client = record {
  rqst = if is_complete client.http then drop (request_size client.http) client.rqst else [];
  http = clear client.http;
}
