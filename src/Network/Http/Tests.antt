-- ===== src/Network/Http/Tests.antt =====
-- HTTP requests on concrete texts: a short GET request, one without its end, a form.
use picolibs.Base.{
  ℕ, zero, suc, ◌+◌, ◌*◌, ◌-◌, ◌<◌, ◌≡◌, refl, ap, Bool, true, false, Option, none, some, List, [],
  ◌∷◌, ◌++◌, arith, ltb, leb, ◌==◌, length, replicate,
}
use picolibs.Util.Txt.{Txt, find_text}
use picolibs.Util.Txt.Holds.{Holds}
use picolibs.Util.Text.{find_first_of}
use picolibs.Network.Http.{
  HttpRequest, clear, header, header_index, index_from, is_header, header_at, header_parts,
  find_other,
}
use picolibs.Network.Http.Header.Lookup.{header_line, header_lem}
use picolibs.Network.Http.Parse.{crlf, is_method, content_length, parse_request}
use picolibs.Network.Http.Parse.Lines.{print_lines, parse_request-lines}
use picolibs.Network.Http.Parse.Front.{parse_request-stuck}
use picolibs.Network.Http.Post.{uri_decode, urlencoded}
use picolibs.Network.Http.Post.Decode.{hex_digit, encode, uri_decode-encode}
use picolibs.Network.Http.{PostData}
use picolibs.Network.Http.Post.{post_body, form_urlencoded, post_array}
use picolibs.Network.Http.Post.Entries.{IsByKey, places_of}
use picolibs.Network.Http.Post.Fields.{urlencoded-stuck, print_fields}
use picolibs.Network.Http.Post.Form.{Stored, post_body-print_fields}
use picolibs.Network.Http.Reply.{replace_header, replace_header_txt, empty_line}
use picolibs.Network.Http.Reply.Same.{replace_header_refines}

abbrev empty_request : HttpRequest
empty_request = record {
  headers = [];
  body_offset = 0;
  body_size = 0;
  body = none;
  post_data = [];
  user_data = [];
}

-- A number of one digit.
abbrev stoul : List ℕ → Option ℕ
stoul (c ∷ []) = some (c - 48)
stoul text = none

-- The value of a digit of `%x`, and the number of two.
abbrev digit : ℕ → ℕ
digit c = elim (ltb c 58) [ true ↦ c - 48 | false ↦ c - 55 ]

abbrev sscanf_x : List ℕ → Option ℕ
sscanf_x (a ∷ b ∷ []) = some (16 * digit a + digit b)
sscanf_x text = none

digit-hex_digit : (d : ℕ) → d < 16 → digit (hex_digit d) ≡ d
digit-hex_digit d h = ground arith

reads : (d e : ℕ) → d < 16 → e < 16 → sscanf_x (hex_digit d ∷ hex_digit e ∷ []) ≡ some (16 * d + e)
reads d e h k =
    let a = digit-hex_digit d h in
    let b = digit-hex_digit e k in ap (λ (n : ℕ). some n) (omega (arith, a, b))

abbrev safe : ℕ → Bool
safe x = leb 97 x

plain : (x : ℕ) → safe x ≡ true → ((x == 37) ≡ false) × ((x == 43) ≡ false)
plain x h = (ground arith, ground arith)

uri_decode-encode_example :
    uri_decode sscanf_x 7 (encode safe (97 ∷ 32 ∷ 38 ∷ 255 ∷ [])) ≡ 97 ∷ 32 ∷ 38 ∷ 255 ∷ []
uri_decode-encode_example =
    uri_decode-encode sscanf_x 7 safe plain reads (97 ∷ 32 ∷ 38 ∷ 255 ∷ [])
      (omega arith, (omega arith, (omega arith, (omega arith, tt))))

-- `G / 1` and `Content-Length:2`
abbrev line : List ℕ
line = 71 ∷ 32 ∷ 47 ∷ 32 ∷ 49 ∷ []

abbrev length_line : List ℕ
length_line =
    67 ∷ 111 ∷ 110 ∷ 116 ∷ 101 ∷ 110 ∷ 116 ∷ 45 ∷ 76 ∷ 101 ∷ 110 ∷ 103 ∷ 116 ∷ 104 ∷ 58 ∷ 50 ∷ []

two_long :
    content_length stoul (record (clear empty_request) { headers = line ∷ length_line ∷ [] })
    ≡ some 2
unfolding content_length header_index index_from is_header find_first_of header_at clear
    header_parts find_other
two_long = refl

parse_request-lines_example :
    parse_request stoul sscanf_x 7 0
      (print_lines (line ∷ length_line ∷ []) ++ (crlf ++ (65 ∷ 66 ∷ 67 ∷ [])))
      false
      empty_request
    ≡ some (
      print_lines (line ∷ length_line ∷ []) ++ (crlf ++ (65 ∷ 66 ∷ 67 ∷ [])),
      record (clear empty_request) {
        headers = line ∷ length_line ∷ [];
        body_offset = 27;
        body_size = 2;
        body = some 27;
      },
      true,
    )
parse_request-lines_example =
    parse_request-lines stoul sscanf_x 7 0 line (length_line ∷ []) (65 ∷ 66 ∷ 67 ∷ []) empty_request
      2
      (
        (omega arith, (refl, (refl, (refl, (refl, (refl, tt)))))),
        (
          (
            omega arith,
            (
              refl,
              (
                refl,
                (
                  refl,
                  (
                    refl,
                    (
                      refl,
                      (
                        refl,
                        (
                          refl,
                          (
                            refl,
                            (refl, (refl, (refl, (refl, (refl, (refl, (refl, (refl, tt)))))))),
                          ),
                        ),
                      ),
                    ),
                  ),
                ),
              ),
            ),
          ),
          tt,
        ),
      )
      two_long

-- `GET /`
abbrev get_text : List ℕ
get_text = 71 ∷ 69 ∷ 84 ∷ 32 ∷ 47 ∷ []

get_text_open : find_text (13 ∷ 10 ∷ crlf) get_text ≡ none
unfolding find_text
get_text_open = refl

get_text_method : is_method get_text 0 ≡ true
unfolding is_method
get_text_method = refl

parse_request-stuck_example :
    parse_request stoul sscanf_x 7 1000 get_text false empty_request ≡ none
parse_request-stuck_example =
    parse_request-stuck stoul sscanf_x 7 1000 get_text false empty_request get_text_open
      get_text_method

-- `G /?a 1`
abbrev with_query : HttpRequest
with_query = record empty_request { headers = (71 ∷ 32 ∷ 47 ∷ 63 ∷ 97 ∷ 32 ∷ 49 ∷ []) ∷ [] }

-- `N: v` and `N:` behind a request line
abbrev with_value : HttpRequest
with_value = record empty_request { headers = line ∷ header_line (78 ∷ []) 1 (118 ∷ []) ∷ [] }

abbrev without_value : HttpRequest
without_value = record empty_request { headers = line ∷ header_line (78 ∷ []) 1 [] ∷ [] }

line_other : is_header (78 ∷ []) line ≡ false
unfolding is_header find_first_of
line_other = refl

header_lem_example :
    (header (78 ∷ []) with_value ≡ some (118 ∷ [])) × (header (78 ∷ []) without_value ≡ none)
header_lem_example =
    header_lem with_value without_value (78 ∷ []) line 1 118 [] [] [] (refl, tt) (line_other, tt)
      refl (refl, tt) refl refl

-- A body of `ab`, with its terminator.
urlencoded-stuck_example : urlencoded sscanf_x 7 1000 2 0 (97 ∷ 98 ∷ 0 ∷ []) [] true ≡ none
urlencoded-stuck_example =
    urlencoded-stuck sscanf_x 7 1000 2 0 (97 ∷ 98 ∷ 0 ∷ []) [] true (omega arith) (omega arith)
      (refl, (refl, tt))

-- `a=b+c&d=`
abbrev fields : List (List ℕ × List ℕ)
fields = (102 ∷ [], 98 ∷ 43 ∷ 99 ∷ []) ∷ (100 ∷ [], []) ∷ []

post_body-print_fields_example :
    (tail : List ℕ) × (entries result : PostData) × (post_body sscanf_x 7 form_urlencoded
        (some 1)
        (length (print_fields fields))
        ((10 ∷ []) ++ (print_fields fields ++ (0 ∷ [])))
      ≡ some ((10 ∷ []) ++ tail, result, true))
    × Stored sscanf_x 7 ((10 ∷ []) ++ tail) fields entries
    × IsByKey result
    × (post_array (102 ∷ []) result ≡ places_of (102 ∷ []) entries)
post_body-print_fields_example =
    post_body-print_fields sscanf_x 7 (10 ∷ []) fields 0 [] (102 ∷ [])
      ((refl, tt), (refl, (refl, (refl, tt))), ((refl, tt), tt, tt))

abbrev fresh : ℕ → List ℕ
fresh n = replicate n 7

length-fresh : (n : ℕ) → length (fresh n) ≡ n
length-fresh zero = refl
length-fresh (suc n) = ap suc (length-fresh n)

-- The header is `A`.
abbrev reply : Txt
reply = record { buffer = some (65 ∷ 13 ∷ 10 ∷ 13 ∷ 10 ∷ 66 ∷ 0 ∷ []); bufsiz = 7; endptr = 6 }

reply-Holds : Holds reply (65 ∷ 13 ∷ 10 ∷ 13 ∷ 10 ∷ 66 ∷ [])
reply-Holds = record { junk = []; memory = refl; ends = refl; size = refl; small = omega arith }

single : find_text empty_line (67 ∷ 68 ∷ []) ≡ none
unfolding find_text
single = refl

replace_header_refines_example :
    (t' : Txt) × (replace_header_txt fresh (67 ∷ 68 ∷ []) reply ≡ some t')
    × Holds t' (replace_header (67 ∷ 68 ∷ []) (65 ∷ 13 ∷ 10 ∷ 13 ∷ 10 ∷ 66 ∷ []))
replace_header_refines_example =
    replace_header_refines fresh length-fresh reply (65 ∷ 13 ∷ 10 ∷ 13 ∷ 10 ∷ 66 ∷ [])
      (67 ∷ 68 ∷ []) reply-Holds
      (omega arith, (omega arith, (omega arith, (omega arith, (omega arith, (omega arith, tt))))))
      single (omega arith)
