-- ===== src/Network/Client/Tests.antt =====
-- Two requests that arrive together.
use picolibs.Base.{
  ℕ, ◌≡◌, refl, true, false, Option, none, some, List, [], ◌∷◌, ◌++◌, arith, take, drop,
}
use picolibs.Util.Text.{find_first_of}
use picolibs.Network.Http.{HttpRequest, clear, is_complete, header_index, index_from, is_header}
use picolibs.Network.Http.Parse.{crlf, content_length}
use picolibs.Network.Http.Parse.Lines.{print_lines}
use picolibs.Network.Client.{Client, rqst_is_ready, reset_rqst}
use picolibs.Network.Client.Requests.{reset_rqst-rqst_is_ready}

abbrev no_number : List ℕ → Option ℕ
no_number text = none

abbrev empty_request : HttpRequest
empty_request = record {
  headers = [];
  body_offset = 0;
  body_size = 0;
  body = none;
  post_data = [];
  user_data = [];
}

-- `A` and `B` as request lines.
abbrev client : Client
client = record {
  rqst = print_lines ((65 ∷ []) ∷ []) ++ (crlf ++ (66 ∷ 13 ∷ 10 ∷ 13 ∷ 10 ∷ []));
  http = empty_request;
}

no_body :
    content_length no_number (record (clear client.http) { headers = (65 ∷ []) ∷ [] }) ≡ some 0
unfolding content_length header_index index_from is_header find_first_of clear
no_body = refl

reset_rqst-rqst_is_ready_example :
    (client' : Client) × (offset : ℕ) × (rqst_is_ready no_number no_number 0 0 client
      ≡ some (true, client'))
    × (client'.http.headers ≡ (65 ∷ []) ∷ [])
    × (client'.http.body ≡ some offset)
    × (take client'.http.body_size (drop offset client'.rqst) ≡ [])
    × ((reset_rqst client').rqst ≡ 66 ∷ 13 ∷ 10 ∷ 13 ∷ 10 ∷ [])
    × (is_complete (reset_rqst client').http ≡ false)
reset_rqst-rqst_is_ready_example =
    reset_rqst-rqst_is_ready no_number no_number 0 0 (65 ∷ []) [] [] (66 ∷ 13 ∷ 10 ∷ 13 ∷ 10 ∷ [])
      client ((omega arith, (refl, tt)), tt) no_body refl
