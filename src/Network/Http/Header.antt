-- ===== src/Network/Http/Header.antt =====
-- The parts of the request line, and the headers by name.
pub mod Line
pub mod Lookup
use picolibs.Base.{
  ℕ, zero, suc, ◌+◌, ◌<◌, ◌≡◌, refl, sym, ap, ◌∙◌, Bool, true, false, Option, none, some, List, [],
  ◌∷◌, arith, ◌==◌, ==_iff, if◌then◌else◌, ◌>>=◌, Returns, length, get_elem?, get_elem?-lt,
  Bool-cases, inl, inr,
}
use picolibs.Util.Text.Tokens.{parts, split_lem}
use picolibs.Network.Http.{HttpRequest, start_token, request_type, url}

start_token-by_lines :
    (k : ℕ) (r : HttpRequest) (headers : List (List ℕ))
    → r.headers ≡ headers
    → k < 3
    → Returns (start_token k r)
unfolding start_token
start_token-by_lines k r [] e h = ([], rw (start_token, e) refl)
start_token-by_lines k r (line ∷ lines) e h =
    let tokens = parts (32 ∷ []) line in
    elim (Bool-cases (length tokens == 3)) [
      | inl three ↦
          let size = (==_iff (length tokens) 3).0 three in
          let (token, found) = get_elem?-lt tokens k (omega (arith, size)) in
          (token, rw (start_token, e, split_lem line (32 ∷ []), three) found)
      | inr other ↦ ([], rw (start_token, e, split_lem line (32 ∷ []), other) refl)
    ]

-- The parts of the request line are found, whatever the headers are.
pub request_type-Returns : (r : HttpRequest) → Returns (request_type r)
unfolding request_type
request_type-Returns r = start_token-by_lines 0 r r.headers refl (omega arith)
