-- ===== src/Network/Http/Post.antt =====
-- The data of a POST request (network/httprequest.cpp): URI decoding, the two encodings of a body,
-- and the values of a key. The body is decoded in place. `memory` is the storage of the request's
-- string, its terminator included; a body ends at index `last`.
pub mod Decode
pub mod Fields
pub mod Round
pub mod Entries
pub mod Form
use picolibs.Base.{
  ℕ, zero, suc, ◌+◌, ◌-◌, ◌%◌, Bool, true, false, not, ◌&&◌, Option, none, some, List, [], ◌∷◌,
  ◌++◌, ltb, leb, ◌==◌, if◌then◌else◌, ◌>>=◌, length, take, drop, get_elem?,
}
use picolibs.Util.Memory.{store, write}
use picolibs.Util.Txt.{find_text}
use picolibs.Util.Text.{find_first_of, split}
use picolibs.Network.Http.{
  PostData, insert_entry, HttpRequest, find_any_at, substr, c_str, same_text, same_name, header,
  url,
}
use picolibs.Network.Http.Multipart.{scan_to, span, get_post_multipart}

-- `sscanf_x` is `sscanf` of a text with `"%x"`, which may not match; `unset` is what the variable `ii` holds at
-- first.
module _ (sscanf_x : List ℕ → Option ℕ) (unset : ℕ) where
  -- One character of `uri_decode`: what is appended, `ii`, and how many characters are passed over.
  unfoldable pub decode_step : ℕ → ℕ → List ℕ → ℕ × ℕ × ℕ
  decode_step ii x xs =
      if x == 37
      then (let ii' : ℕ = elim (sscanf_x (take 2 xs)) [ none ↦ ii | some v ↦ v ] in
          (ii' % 256, ii', 2))
      else if x == 43
      then (32, ii, 0)
      else (x, ii, 0)

  -- The loop, with the characters that are still passed over.
  unfoldable pub decode_loop : ℕ → ℕ → List ℕ → List ℕ
  decode_loop ii skip [] = []
  decode_loop ii (suc skip) (x ∷ xs) = decode_loop ii skip xs
  decode_loop ii zero (x ∷ xs) =
      let (ch, ii', skip) = decode_step ii x xs in ch ∷ decode_loop ii' skip xs

  unfoldable pub uri_decode : List ℕ → List ℕ
  uri_decode uri = decode_loop unset 0 uri

  -- The loop of `query` over the tokens.
  unfoldable pub query_in : List ℕ → List (List ℕ) → List ℕ
  query_in key [] = []
  query_in key (token ∷ tokens) =
      let rest = query_in key tokens in
      elim (find_first_of (61 ∷ []) token) [
        | none ↦ rest
        | some i1 ↦
            if same_text (take i1 token) key
            then (if ltb (i1 + 1) (length token) then drop (i1 + 1) token else [])
            else rest
      ]

  -- Without a question mark, `i1 + 1` wraps to 0, and nothing is erased.
  unfoldable pub query : List ℕ → HttpRequest → Option (List ℕ)
  query key r = do
    address ← url r
    let qry = uri_decode address
    tok ←
        split (elim (find_first_of (63 ∷ []) qry) [ none ↦ qry | some i1 ↦ drop (i1 + 1) qry ])
          (38 ∷ [])
    some (query_in key tok)

  -- A round of `get_post_urlencoded`, with a key in front of index `cp`: the memory, the place of the value
  -- and the next index.
  unfoldable pub take_value : ℕ → ℕ → List ℕ → Option (List ℕ × ℕ × ℕ)
  take_value last cp memory =
      let ptr = cp + 1 in
      if ltb ptr last
      then (let raw = span ptr last memory in
          (do
            memory' ← write memory ptr (uri_decode (take (scan_to 38 raw) raw) ++ (0 ∷ []))
            some (memory', ptr, ptr + scan_to 38 raw + 1)))
      else (do memory' ← store memory cp 0; some (memory', cp, ptr))

  -- The loop: the memory, the entries and the answer. Without an equals sign, `ptr` stays.
  unfoldable pub urlencoded :
      ℕ → ℕ → ℕ → List ℕ → PostData → Bool → Option (List ℕ × PostData × Bool)
  urlencoded zero last ptr memory entries ret = none
  urlencoded (suc fuel) last ptr memory entries ret = elim (ltb ptr last) [
    | false ↦ some (memory, entries, ret)
    | true ↦
        let raw = span ptr last memory in
        let n = scan_to 61 raw in
        elim (ltb (ptr + n) last) [
          | false ↦ urlencoded fuel last ptr memory entries false
          | true ↦ (do
            (memory', place, next) ← take_value last (ptr + n) memory
            urlencoded fuel last next memory' (insert_entry (uri_decode (take n raw)) place entries)
                ret)
        ]
  ]

-- `Content-Type`, `application/x-www-form-urlencoded`, `multipart/form-data`
abbrev pub content_type_name : List ℕ
content_type_name = 67 ∷ 111 ∷ 110 ∷ 116 ∷ 101 ∷ 110 ∷ 116 ∷ 45 ∷ 84 ∷ 121 ∷ 112 ∷ 101 ∷ []

abbrev pub form_urlencoded : List ℕ
form_urlencoded =
    97 ∷ 112 ∷ 112 ∷ 108 ∷ 105 ∷ 99 ∷ 97 ∷ 116 ∷ 105 ∷ 111 ∷ 110 ∷ 47 ∷ 120 ∷ 45 ∷ 119 ∷ 119 ∷ 119
    ∷ 45 ∷ 102 ∷ 111 ∷ 114 ∷ 109 ∷ 45 ∷ 117 ∷ 114 ∷ 108 ∷ 101 ∷ 110 ∷ 99 ∷ 111 ∷ 100 ∷ 101 ∷ 100
    ∷ []

abbrev pub form_data : List ℕ
form_data =
    109 ∷ 117 ∷ 108 ∷ 116 ∷ 105 ∷ 112 ∷ 97 ∷ 114 ∷ 116 ∷ 47 ∷ 102 ∷ 111 ∷ 114 ∷ 109 ∷ 45 ∷ 100 ∷ 97
    ∷ 116 ∷ 97 ∷ []

-- Where a body begins. The null pointer can be read from only if there is nothing to read.
unfoldable pub body_start : Option ℕ → ℕ → Option ℕ
body_start none size = if size == 0 then some 0 else none
body_start (some start) size = some start

-- A body, by its content type: the memory, the entries and the answer.
unfoldable pub post_body :
    (List ℕ → Option ℕ) → ℕ → List ℕ → Option ℕ → ℕ → List ℕ → Option (List ℕ × PostData × Bool)
post_body sscanf_x unset content_type body size memory =
    if same_text content_type form_urlencoded
    then (do
      start ← body_start body size
      urlencoded sscanf_x unset (suc (start + size)) (start + size) start memory [] true)
    else elim (find_text form_data content_type) [
      | none ↦ some (memory, [], false)
      | some i ↦ (do
        start ← body_start body size
        get_post_multipart content_type (start + size) start memory [])
    ]

-- `get_post` on the request's string: the string, the request and the answer.
unfoldable pub get_post :
    (List ℕ → Option ℕ) → ℕ → List ℕ → HttpRequest → Option (List ℕ × HttpRequest × Bool)
get_post sscanf_x unset rqst r = do
  content_type ← header content_type_name r
  (memory, entries, ret) ←
      post_body sscanf_x unset content_type r.body r.body_size (rqst ++ (0 ∷ []))
  some (take (length rqst) memory, record r { post_data = entries }, ret)

unfoldable pub parse_post :
    (List ℕ → Option ℕ) → ℕ → List ℕ → HttpRequest → Option (List ℕ × HttpRequest × Bool)
parse_post sscanf_x unset rqst r =
    if ltb 0 (length r.post_data) then some (rqst, r, true) else get_post sscanf_x unset rqst r

-- The first value of a key, and all of them.
unfoldable pub post_value : List ℕ → PostData → Option ℕ
post_value key [] = none
post_value key ((k, value) ∷ entries) =
    if same_text k key then some value else post_value key entries

unfoldable pub post_array : List ℕ → PostData → List ℕ
post_array key [] = []
post_array key ((k, value) ∷ entries) =
    let rest = post_array key entries in if same_text k key then value ∷ rest else rest
