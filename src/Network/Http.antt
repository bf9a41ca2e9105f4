-- ===== src/Network/Http.antt =====
-- `HTTPRequest` (network/httprequest.{h,cpp}): an HTTP request and its parts. A `std::string` is the
-- list of its bytes, and `none` in place of an index stands for `npos` or -1. A result `none` is an
-- exception that nobody catches, an access outside a buffer, or a loop that the fuel does not end.
pub mod Multipart
pub mod Post
pub mod Parse
pub mod Header
pub mod Order
pub mod Reply
mod Tests
use picolibs.Base.{
  ℕ, zero, suc, ◌+◌, ◌-◌, ◌%◌, Bool, true, false, ◌&&◌, ◌||◌, Option, none, some, List, [], ◌∷◌,
  ◌++◌, ltb, leb, ◌==◌, if◌then◌else◌, ◌>>=◌, length, take, drop, get_elem?, set,
}
use picolibs.Util.Txt.{find_text}
use picolibs.Util.Text.{find_first_of, contains, split}

-- Positions in a `std::string`, searched for from an index on.
abbrev pub shift : ℕ → Option ℕ → Option ℕ
shift i found = do j ← found; some (i + j)

abbrev pub find_text_at : List ℕ → ℕ → List ℕ → Option ℕ
find_text_at text i str = shift i (find_text text (drop i str))

abbrev pub find_any_at : List ℕ → ℕ → List ℕ → Option ℕ
find_any_at chars i str = shift i (find_first_of chars (drop i str))

-- `find_first_not_of` one character
unfoldable pub find_other : ℕ → List ℕ → Option ℕ
find_other c [] = none
find_other c (x ∷ xs) = if x == c then (do i ← find_other c xs; some (suc i)) else some 0

-- `rfind` of one character
unfoldable pub find_last : ℕ → List ℕ → Option ℕ
find_last c [] = none
find_last c (x ∷ xs) = elim (find_last c xs) [
  | some i ↦ some (suc i)
  | none ↦ if x == c then some 0 else none
]

-- `substr`, with a count, and to the end. An index behind the end is an exception.
abbrev pub substr : ℕ → ℕ → List ℕ → Option (List ℕ)
substr i n str = if leb i (length str) then some (take n (drop i str)) else none

abbrev pub substr_from : ℕ → List ℕ → Option (List ℕ)
substr_from i str = if leb i (length str) then some (drop i str) else none

-- What is in front of an index, or all of it.
abbrev pub take_to : Option ℕ → List ℕ → List ℕ
take_to none str = str
take_to (some i) str = take i str

-- The names of headers are compared as C strings, without regard to case.
abbrev pub c_str : List ℕ → List ℕ
c_str [] = []
c_str (x ∷ xs) = if x == 0 then [] else x ∷ c_str xs

abbrev pub lower : ℕ → ℕ
lower x = if leb 65 x && leb x 90 then x + 32 else x

abbrev pub same_text : List ℕ → List ℕ → Bool
same_text [] [] = true
same_text [] (y ∷ ys) = false
same_text (x ∷ xs) [] = false
same_text (x ∷ xs) (y ∷ ys) = x == y && same_text xs ys

-- `<` of a `std::string`, on bytes.
abbrev pub text_less : List ℕ → List ℕ → Bool
text_less [] [] = false
text_less [] (y ∷ ys) = true
text_less (x ∷ xs) [] = false
text_less (x ∷ xs) (y ∷ ys) = ltb x y || x == y && text_less xs ys

abbrev pub same_name : List ℕ → List ℕ → Bool
same_name [] [] = true
same_name [] (y ∷ ys) = false
same_name (x ∷ xs) [] = false
same_name (x ∷ xs) (y ∷ ys) = lower x == lower y && same_name xs ys

-- The values of `PostData` are pointers into the request, here indices. The entries of a
-- `std::multimap` are in the order of their keys.
abbrev pub PostData : Type 0
PostData = List (List ℕ × ℕ)

-- `insert`: an entry comes behind those of the same key.
unfoldable pub insert_entry : List ℕ → ℕ → PostData → PostData
insert_entry key value [] = (key, value) ∷ []
insert_entry key value ((k, v) ∷ entries) =
    let rest = insert_entry key value entries in
    if text_less key k then (key, value) ∷ (k, v) ∷ entries else (k, v) ∷ rest

-- The members of `HTTPRequest`. `body` is the null pointer or an index into the request.
pub record HttpRequest : Type 0 where
  pub headers : List (List ℕ)
  pub body_offset : ℕ
  pub body_size : ℕ
  pub body : Option ℕ
  pub post_data : PostData
  pub user_data : List ℕ

unfoldable pub clear : HttpRequest → HttpRequest
clear r = record r { headers = []; body_offset = 0; body_size = 0; body = none; post_data = [] }

unfoldable pub set_user_data : List ℕ → HttpRequest → HttpRequest
set_user_data text r = record r { user_data = text }

-- `size()`: the request with its body.
unfoldable pub request_size : HttpRequest → ℕ
request_size r = r.body_offset + r.body_size

unfoldable pub is_complete : HttpRequest → Bool
is_complete r = elim r.body [ none ↦ false | some i ↦ true ]

-- A part of the request line, by its index among the tokens.
unfoldable pub start_token : ℕ → HttpRequest → Option (List ℕ)
start_token k r = elim r.headers [
  | [] ↦ some []
  | line ∷ lines ↦ (do
    tokens ← split line (32 ∷ [])
    if length tokens == 3 then get_elem? tokens k else some [])
]

unfoldable pub request_type : HttpRequest → Option (List ℕ)
request_type r = start_token 0 r

unfoldable pub url : HttpRequest → Option (List ℕ)
url r = start_token 1 r

unfoldable pub path : HttpRequest → Option (List ℕ)
path r = do ret ← url r; some (take_to (find_first_of (63 ∷ []) ret) ret)

unfoldable pub root : HttpRequest → Option (List ℕ)
root r = do ret ← path r; some (take_to (find_first_of (46 ∷ []) ret) ret)

-- `"html"` without a type.
unfoldable pub filetype : HttpRequest → Option (List ℕ)
filetype r = do
  pat ← path r
  elim (find_last 46 pat) [
    | none ↦ some (104 ∷ 116 ∷ 109 ∷ 108 ∷ [])
    | some i1 ↦
        if ltb (i1 + 1) (length pat)
        then substr_from (i1 + 1) pat
        else some (104 ∷ 116 ∷ 109 ∷ 108 ∷ [])
  ]

-- `setURL` on the request line.
unfoldable pub set_url_line : List ℕ → List ℕ → List ℕ
set_url_line newurl hdr = elim (find_first_of (32 ∷ []) hdr) [
  | none ↦ hdr
  | some i0 ↦ elim (shift i0 (find_other 32 (drop i0 hdr))) [
    | none ↦ hdr
    | some i1 ↦ elim (find_any_at (32 ∷ []) i1 hdr) [
      | none ↦ hdr
      | some i2 ↦ take i1 hdr ++ (newurl ++ drop (i1 + (i2 - i1)) hdr)
    ]
  ]
]

unfoldable pub set_url : List ℕ → HttpRequest → HttpRequest
set_url newurl r = elim r.headers [
  | [] ↦ r
  | hdr ∷ lines ↦ record r { headers = set_url_line newurl hdr ∷ lines }
]

-- Whether a line is a header with the name.
unfoldable pub is_header : List ℕ → List ℕ → Bool
is_header name line = elim (find_first_of (58 ∷ []) line) [
  | none ↦ false
  | some i1 ↦ same_name (c_str (take i1 line)) (c_str name)
]

-- The loop of `headerIndex`, at index `ii`.
unfoldable pub index_from : List ℕ → ℕ → List (List ℕ) → Option ℕ
index_from name ii [] = none
index_from name ii (line ∷ lines) =
    let rest = index_from name (suc ii) lines in if is_header name line then some ii else rest

unfoldable pub header_index : List ℕ → ℕ → HttpRequest → Option ℕ
header_index name from r = index_from name from (drop from r.headers)

-- The name and the value of a line.
unfoldable pub header_parts : List ℕ → Option (List ℕ × List ℕ)
header_parts line = elim (find_first_of (58 ∷ []) line) [
  | none ↦ some ([], [])
  | some i1 ↦ elim (shift (i1 + 1) (find_other 32 (drop (i1 + 1) line))) [
    | none ↦ none
    | some i2 ↦ elim (find_any_at (13 ∷ 10 ∷ []) i2 line) [
      | none ↦ (do value ← substr_from i2 line; some (take i1 line, value))
      | some i3 ↦ (do value ← substr i2 (i3 - i2) line; some (take i1 line, value))
    ]
  ]
]

-- `header(index)`; an index of 0 is that of the request line.
unfoldable pub header_at : Option ℕ → HttpRequest → Option (List ℕ × List ℕ)
header_at none r = some ([], [])
header_at (some zero) r = some ([], [])
header_at (some (suc i)) r = elim (get_elem? r.headers (suc i)) [
  | none ↦ some ([], [])
  | some line ↦ header_parts line
]

-- `header(name)`
unfoldable pub header : List ℕ → HttpRequest → Option (List ℕ)
header name r = do (_, value) ← header_at (header_index name 0 r) r; some value

-- The inner loop of `cookie`, from index `i1` of a header's value: what is found, if anything is.
unfoldable pub cookie_in : ℕ → List ℕ → List ℕ → ℕ → Option (Option (List ℕ))
cookie_in zero name value i1 = none
cookie_in (suc fuel) name value i1 =
    if ltb i1 (length value)
    then elim (find_any_at (61 ∷ []) i1 value) [
      | none ↦ some none
      | some at ↦
          let i2 = at + 1 in
          let ll : ℕ = elim (find_text_at (59 ∷ 32 ∷ []) i2 value) [
            | none ↦ length value - i2
            | some i3 ↦ i3 - i2
          ] in
          let rest = cookie_in fuel name value (i2 + ll + 2) in
          if (i2 - i1 - 1 == length name)
            && same_name (c_str (take (i2 - i1 - 1) (drop i1 value))) (c_str name)
          then (do found ← substr i2 ll value; some (some found))
          else rest
    ]
    else some none

-- The outer loop: from one `Cookie` header to the next.
unfoldable pub cookie_from : ℕ → List ℕ → Option ℕ → HttpRequest → Option (Option (List ℕ))
cookie_from fuel name none r = some none
cookie_from fuel name (some zero) r = some none
cookie_from zero name (some (suc i)) r = none
cookie_from (suc fuel) name (some (suc i)) r = do
  (_, value) ← header_at (some (suc i)) r
  found ← cookie_in (suc (length value)) name value 0
  elim found [
    | some ret ↦ some (some ret)
    | none ↦
        cookie_from fuel name (header_index (67 ∷ 111 ∷ 111 ∷ 107 ∷ 105 ∷ 101 ∷ []) (suc i + 1) r) r
  ]

unfoldable pub cookie : List ℕ → List ℕ → HttpRequest → Option (List ℕ)
cookie name defval r = do
  found ←
      cookie_from (length r.headers) name (header_index (67 ∷ 111 ∷ 111 ∷ 107 ∷ 105 ∷ 101 ∷ []) 0 r)
        r
  some (elim found [ none ↦ defval | some ret ↦ ret ])
