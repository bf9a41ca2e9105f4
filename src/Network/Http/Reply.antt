-- ===== src/Network/Http/Reply.antt =====
-- The functions of `HTTPRequest` that change the header of a response (network/httprequest.cpp).
pub mod Same
use picolibs.Base.{ℕ, ◌+◌, ◌-◌, Option, none, some, List, [], ◌∷◌, ◌++◌, ◌>>=◌, length, take, drop}
use picolibs.Util.Txt.{Txt, find, find_text, replace}
use picolibs.Network.Http.{take_to}

-- `"\r\n\r\n"`
abbrev pub empty_line : List ℕ
empty_line = 13 ∷ 10 ∷ 13 ∷ 10 ∷ []

unfoldable pub replace_header : List ℕ → List ℕ → List ℕ
replace_header new_header rqst = elim (find_text empty_line rqst) [
  | none ↦ rqst
  | some i1 ↦ take_to (find_text empty_line new_header) new_header ++ drop i1 rqst
]

-- On a `TXT`. `fresh` is what `new` gives.
unfoldable pub replace_header_txt : (ℕ → List ℕ) → List ℕ → Txt → Option Txt
replace_header_txt fresh new_header rqst = do
  found ← find empty_line rqst
  elim found [ none ↦ some rqst | some i1 ↦ replace fresh 0 i1 new_header rqst ]

-- `HTTP/1.1 200 OK`, `Content-Type: text/html` and `Content-Length: `, each line but the last with its end
abbrev pub status : List ℕ
status =
    72 ∷ 84 ∷ 84 ∷ 80 ∷ 47 ∷ 49 ∷ 46 ∷ 49 ∷ 32 ∷ 50 ∷ 48 ∷ 48 ∷ 32 ∷ 79 ∷ 75 ∷ 13 ∷ 10 ∷ 67 ∷ 111
    ∷ 110 ∷ 116 ∷ 101 ∷ 110 ∷ 116 ∷ 45 ∷ 84 ∷ 121 ∷ 112 ∷ 101 ∷ 58 ∷ 32 ∷ 116 ∷ 101 ∷ 120 ∷ 116 ∷ 47
    ∷ 104 ∷ 116 ∷ 109 ∷ 108 ∷ 13 ∷ 10 ∷ 67 ∷ 111 ∷ 110 ∷ 116 ∷ 101 ∷ 110 ∷ 116 ∷ 45 ∷ 76 ∷ 101 ∷ 110
    ∷ 103 ∷ 116 ∷ 104 ∷ 58 ∷ 32 ∷ []

-- `Connection: keep-alive` and `Cache-Control: no-store`, each with a line end in front
abbrev pub connection : List ℕ
connection =
    13 ∷ 10 ∷ 67 ∷ 111 ∷ 110 ∷ 110 ∷ 101 ∷ 99 ∷ 116 ∷ 105 ∷ 111 ∷ 110 ∷ 58 ∷ 32 ∷ 107 ∷ 101 ∷ 101
    ∷ 112 ∷ 45 ∷ 97 ∷ 108 ∷ 105 ∷ 118 ∷ 101 ∷ 13 ∷ 10 ∷ 67 ∷ 97 ∷ 99 ∷ 104 ∷ 101 ∷ 45 ∷ 67 ∷ 111
    ∷ 110 ∷ 116 ∷ 114 ∷ 111 ∷ 108 ∷ 58 ∷ 32 ∷ 110 ∷ 111 ∷ 45 ∷ 115 ∷ 116 ∷ 111 ∷ 114 ∷ 101 ∷ []

-- `to_string` is `std::to_string`.
unfoldable pub set_html_length_header : (ℕ → List ℕ) → List ℕ → List ℕ
set_html_length_header to_string rqst = elim (find_text empty_line rqst) [
  | none ↦ rqst
  | some i1 ↦ replace_header (status ++ (to_string (length rqst - i1 - 4) ++ connection)) rqst
]

-- On a `TXT`, whose `newHeader` has room for 127 bytes and a terminator.
unfoldable pub set_html_length_header_txt : (ℕ → List ℕ) → (ℕ → List ℕ) → Txt → Option Txt
set_html_length_header_txt fresh to_string rqst = do
  found ← find empty_line rqst
  elim found [
    | none ↦ some rqst
    | some i1 ↦
        replace_header_txt fresh
          (take 127 (status ++ (to_string (rqst.endptr - i1 - 4) ++ connection))) rqst
  ]
