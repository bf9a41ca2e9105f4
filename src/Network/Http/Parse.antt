-- ===== src/Network/Http/Parse.antt =====
-- `HTTPRequest::parseRequest` (network/httprequest.cpp): the lines of a request and its body, and what is
-- done to the front of a request that is not complete.
pub mod Lines
pub mod Front
use picolibs.Base.{
  ℕ, zero, suc, ◌+◌, ◌-◌, Bool, true, false, ◌&&◌, ◌||◌, Option, none, some, List, [], ◌∷◌, ◌++◌,
  ltb, leb, ◌==◌, if◌then◌else◌, ◌>>=◌, length, take, drop, get_elem?,
}
use picolibs.Util.Txt.{find_text}
use picolibs.Network.Http.{
  HttpRequest, find_text_at, find_any_at, substr, same_text, clear, is_complete, request_type,
  header_index, header_at,
}
use picolibs.Network.Http.Post.{get_post}

abbrev pub crlf : List ℕ
crlf = 13 ∷ 10 ∷ []

-- The loop over the lines from index `i1`, with fuel: the lines, and `i2` at the end.
unfoldable pub lines_from : ℕ → List ℕ → ℕ → Option (List (List ℕ) × Option ℕ)
lines_from zero rqst i1 = none
lines_from (suc fuel) rqst i1 = elim (find_text_at crlf i1 rqst) [
  | none ↦ some ([], none)
  | some i2 ↦ elim (i2 == i1) [
    | true ↦ some ([], some i2)
    | false ↦ (do
      line ← substr i1 (i2 - i1) rqst
      (lines, last) ← lines_from fuel rqst (i2 + 2)
      some (line ∷ lines, last))
  ]
]

-- `Content-Length`
abbrev pub content_length_name : List ℕ
content_length_name =
    67 ∷ 111 ∷ 110 ∷ 116 ∷ 101 ∷ 110 ∷ 116 ∷ 45 ∷ 76 ∷ 101 ∷ 110 ∷ 103 ∷ 116 ∷ 104 ∷ []

-- `POST`
abbrev pub post_word : List ℕ
post_word = 80 ∷ 79 ∷ 83 ∷ 84 ∷ []

-- `stoul` is `std::stoul`; `none` is an exception of it, which is caught.
module _ (stoul : List ℕ → Option ℕ) where
  unfoldable pub content_length : HttpRequest → Option ℕ
  content_length r = elim (header_index content_length_name 0 r) [
    | none ↦ some 0
    | some zero ↦ some 0
    | some (suc i) ↦ (do
      (_, valstr) ← header_at (some (suc i)) r
      some (elim (stoul valstr) [ none ↦ 0 | some cl ↦ cl ]))
  ]

  -- The request of a text whose empty line begins at `i2`. The storage that `reserve` asks for is
  -- not modelled: the text stays.
  unfoldable pub parse_body : List ℕ → List (List ℕ) → ℕ → HttpRequest → Option HttpRequest
  parse_body rqst lines i2 r =
      let r' = record (clear r) { headers = lines } in
      (do
        cl ← content_length r'
        let size = length rqst - (i2 + 2)
        if leb cl size
            then some (record r' { body_offset = i2 + 2; body_size = cl; body = some (i2 + 2) })
            else some (record r' { body_offset = i2 + 2; body_size = size }))

-- `GET `, `POST `
abbrev pub get_space : List ℕ
get_space = 71 ∷ 69 ∷ 84 ∷ 32 ∷ []

abbrev pub post_space : List ℕ
post_space = 80 ∷ 79 ∷ 83 ∷ 84 ∷ 32 ∷ []

-- Whether a method stands at an index.
unfoldable pub is_method : List ℕ → ℕ → Bool
is_method rqst i2 =
    (ltb (i2 + 4) (length rqst) && same_text (take 4 (drop i2 rqst)) get_space)
    || (ltb (i2 + 5) (length rqst) && same_text (take 5 (drop i2 rqst)) post_space)

-- Whether the text behind an index is long enough to hold one.
unfoldable pub is_other : List ℕ → ℕ → Bool
is_other rqst i2 = elim (get_elem? rqst i2) [
  | none ↦ false
  | some c ↦ (c == 71 && ltb (i2 + 4) (length rqst)) || (c == 80 && ltb (i2 + 5) (length rqst))
]

-- A round of the loop on an incomplete text: the text, and `i1`.
unfoldable pub front_step : List ℕ → ℕ → List ℕ × ℕ
front_step rqst i1 = elim (find_any_at (71 ∷ 80 ∷ []) i1 rqst) [
  | none ↦ ([], i1)
  | some i2 ↦
      if is_method rqst i2
      then (if ltb 0 i2 then (drop i2 rqst, length (drop i2 rqst)) else (rqst, i1))
      else if is_other rqst i2
      then (drop (i2 + 1) rqst, i1)
      else (rqst, i1)
]

-- The loop, with fuel.
unfoldable pub drop_front : ℕ → List ℕ → ℕ → Option (List ℕ)
drop_front zero rqst i1 = none
drop_front (suc fuel) rqst i1 = elim (ltb 0 (length rqst) && ltb i1 (length rqst)) [
  | false ↦ some rqst
  | true ↦ (let (rqst', i1') = front_step rqst i1 in drop_front fuel rqst' i1')
]

-- `parseRequest`: the text, the request and the answer. `fuel` is that of the loop on an incomplete text.
module _ (stoul : List ℕ → Option ℕ) (sscanf_x : List ℕ → Option ℕ) (unset fuel : ℕ) where
  unfoldable pub parse_request : List ℕ → Bool → HttpRequest → Option (List ℕ × HttpRequest × Bool)
  parse_request rqst parse_post_data r = elim (find_text (13 ∷ 10 ∷ crlf) rqst) [
    | none ↦ (do rqst' ← drop_front fuel rqst 0; some (rqst', clear r, is_complete (clear r)))
    | some i ↦ (do
      (lines, last) ← lines_from (suc (length rqst)) rqst 0
      i2 ← last
      r' ← parse_body stoul rqst lines i2 r
      kind ← request_type r'
      if is_complete r' && (same_text kind post_word && parse_post_data)
          then (do
            (rqst', r'', ret) ← get_post sscanf_x unset rqst r'
            some (rqst', r'', is_complete r''))
          else some (rqst, r', is_complete r'))
  ]
