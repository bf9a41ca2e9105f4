-- ===== src/Network/Http/Parse/Lines.antt =====
-- The lines and the body of a complete request.
use picolibs.Base.{
  ℕ, zero, suc, ◌+◌, ◌-◌, ◌<◌, ◌≤◌, ◌≡◌, refl, ap, ◌∙◌, Bool, true, false, ◌&&◌, Option, some, List,
  [], ◌∷◌, ◌++◌, append_assoc, arith, leb, ◌==◌, if◌then◌else◌, length, length-append, drop,
  take-append_eq, drop-append_eq, length-drop, Bool-cases, Option-cases, inl, inr,
}
use picolibs.Util.Txt.{find_text}
use picolibs.Util.Text.Find.{Without, find_text-Without}
use picolibs.Network.Http.{HttpRequest, clear, is_complete, same_text}
use picolibs.Util.Txt.{is_prefix}
use picolibs.Util.Txt.Search.{find_text-none}
use picolibs.Util.Text.Find.{is_prefix-append}
use picolibs.Network.Http.Header.{request_type-Returns}
use picolibs.Network.Http.Parse.{
  crlf, post_word, lines_from, content_length, parse_body, parse_request,
}

-- A line that is not empty and holds no carriage return.
abbrev pub IsLine : List ℕ → Type 0
IsLine line = (0 < length line) × Without (13 ∷ []) line

abbrev pub AllLines : List (List ℕ) → Type 0
AllLines [] = Unit
AllLines (line ∷ lines) = IsLine line × AllLines lines

-- The lines as a request has them.
abbrev pub print_lines : List (List ℕ) → List ℕ
print_lines [] = []
print_lines (line ∷ lines) = line ++ (crlf ++ print_lines lines)

drop_add : (i j : ℕ) (xs : List ℕ) → drop (i + j) xs ≡ drop j (drop i xs)
drop_add zero j xs = let same : 0 + j ≡ j = omega arith in rw same refl
drop_add (suc i) zero [] = let same : suc i + 0 ≡ suc (i + 0) = omega arith in rw same refl
drop_add (suc i) (suc j) [] =
    let same : suc i + suc j ≡ suc (suc (i + j)) = omega arith in rw same refl
drop_add (suc i) j (x ∷ xs) =
    let same : suc i + j ≡ suc (i + j) = omega arith in rw same (drop_add i j xs)

-- What is behind the line at an index.
behind :
    (text line rest : List ℕ) (i1 : ℕ)
    → drop i1 text ≡ line ++ (crlf ++ rest)
    → i1 ≤ length text
    → (drop (i1 + length line + 2) text ≡ rest) × (i1 + length line + 2 + length rest ≡ length text)
behind text line rest i1 e inside =
    let index : i1 + length line + 2 ≡ i1 + (length line + 2) = omega arith in
    (
      rw
          (
            index,
            drop_add i1 (length line + 2) text,
            e,
            drop_add (length line) 2 (line ++ (crlf ++ rest)),
            drop-append_eq (length line) line (crlf ++ rest) refl,
          )
          refl,
      omega (arith, ap length e, length-drop i1 text, length-append line (crlf ++ rest)),
    )

lines_from-cons :
    (fuel : ℕ) (text line rest : List ℕ) (i1 : ℕ) (lines : List (List ℕ)) (last : Option ℕ)
    → drop i1 text ≡ line ++ (crlf ++ rest)
    → i1 ≤ length text
    → IsLine line
    → lines_from fuel text (i1 + length line + 2) ≡ some (lines, last)
    → lines_from (suc fuel) text i1 ≡ some (line ∷ lines, last)
unfolding lines_from
lines_from-cons fuel text line rest i1 lines last e inside (more, plain) next =
    let found = find_text-Without line 13 (10 ∷ []) rest plain in
    let other : (i1 + length line == i1) ≡ false = ground arith in
    let leq : leb i1 (length text) ≡ true = ground arith in
    let size : i1 + length line - i1 ≡ length line = omega arith in
    rw
      (
        lines_from,
        e,
        found,
        other,
        leq,
        size,
        e,
        take-append_eq (length line) line (crlf ++ rest) refl,
        next,
      )
      refl

-- The loop from the end of what it has passed.
lines_from-print :
    (fuel : ℕ) (text : List ℕ) (i1 : ℕ) (lines : List (List ℕ)) (body : List ℕ)
    → drop i1 text ≡ print_lines lines ++ (crlf ++ body)
    → i1 ≤ length text
    → AllLines lines
    → length lines < fuel
    → lines_from fuel text i1 ≡ some (lines, some (i1 + length (print_lines lines)))
unfolding lines_from
lines_from-print zero text i1 lines body e inside h enough = absurd (omega arith)
lines_from-print (suc fuel) text i1 [] body e inside h enough =
    let found = find_text-Without [] 13 (10 ∷ []) body tt in
    let same : (i1 + 0 == i1) ≡ true = ground arith in rw (lines_from, e, found, same) refl
lines_from-print (suc fuel) text i1 (line ∷ lines) body e inside (is_line, h) enough =
    let rest = print_lines lines ++ (crlf ++ body) in
    let whole : drop i1 text ≡ line ++ (crlf ++ rest) = e ∙ simp (append_assoc) in
    let (next, size) = behind text line rest i1 whole inside in
    let total : i1 + length line + 2 + length (print_lines lines)
        ≡ i1 + length (print_lines (line ∷ lines)) =
      omega (arith, length-append line (crlf ++ print_lines lines)) in
    lines_from-cons fuel text line rest i1 lines (some (i1 + length (print_lines (line ∷ lines))))
      whole inside is_line
      (lines_from-print fuel text (i1 + length line + 2) lines body next (omega arith) h
          (omega arith)
        ∙ ap (λ (n : ℕ). some (lines, some n)) total)

last_crlf :
    (line : List ℕ) (lines : List (List ℕ))
    → (pre : List ℕ) × (print_lines (line ∷ lines) ≡ pre ++ crlf)
last_crlf line [] = (line, refl)
last_crlf line (next ∷ lines) =
    let (pre, e) = last_crlf next lines in
    (line ++ (crlf ++ pre), ap (λ (m : List ℕ). line ++ (crlf ++ m)) e ∙ simp (append_assoc))

-- A request has its empty line.
ends :
    (line : List ℕ) (lines : List (List ℕ)) (body : List ℕ)
    → (i : ℕ) × (find_text (13 ∷ 10 ∷ crlf) (print_lines (line ∷ lines) ++ (crlf ++ body)) ≡ some i)
ends line lines body =
    let text = print_lines (line ∷ lines) ++ (crlf ++ body) in
    let (pre, e) = last_crlf line lines in
    let whole : text ≡ pre ++ ((13 ∷ 10 ∷ crlf) ++ body) =
      ap (λ (m : List ℕ). m ++ (crlf ++ body)) e ∙ simp (append_assoc) in
    elim (Option-cases (find_text (13 ∷ 10 ∷ crlf) text)) [
      | inr found ↦ found
      | inl missing ↦
          let here : is_prefix (13 ∷ 10 ∷ crlf) (drop (length pre) text) ≡ true =
            rw (whole, drop-append_eq (length pre) pre ((13 ∷ 10 ∷ crlf) ++ body) refl)
              (is_prefix-append (13 ∷ 10 ∷ crlf) body) in
          absurd (contrary here (find_text-none (13 ∷ 10 ∷ crlf) text missing (length pre)))
    ]
  where
    contrary : {b : Bool} → b ≡ true → b ≡ false → ⊥
    contrary t f = cc

and_false : (b : Bool) → (b && false) ≡ false
and_false true = refl
and_false false = refl

length-print_lines : (lines : List (List ℕ)) → length lines ≤ length (print_lines lines)
length-print_lines [] = omega arith
length-print_lines (line ∷ lines) =
    omega (arith, length-print_lines lines, length-append line (crlf ++ print_lines lines))

parse_body-size :
    (stoul : List ℕ → Option ℕ) (rqst : List ℕ) (lines : List (List ℕ)) (i2 cl size : ℕ)
    (r : HttpRequest)
    → content_length stoul (record (clear r) { headers = lines }) ≡ some cl
    → length rqst - (i2 + 2) ≡ size
    → parse_body stoul rqst lines i2 r ≡ (
        if leb cl size
        then some (record (clear r) {
          headers = lines;
          body_offset = i2 + 2;
          body_size = cl;
          body = some (i2 + 2);
        })
        else some (record (clear r) { headers = lines; body_offset = i2 + 2; body_size = size }))
unfolding parse_body
parse_body-size stoul rqst lines i2 cl size r length_is size_is =
    rw (parse_body, length_is, size_is) refl

-- On the lines of a request, an empty line and a body, parsing without the data of a POST request returns: the lines are the headers, and the body begins
-- behind the empty line. If the body is as long as `Content-Length` has it, or longer, the request is complete, with a
-- body of that length; else it is not, and what there is of the body is counted.
pub parse_request-lines :
    (stoul sscanf_x : List ℕ → Option ℕ) (unset fuel : ℕ) (line : List ℕ) (lines : List (List ℕ))
    (body : List ℕ) (r : HttpRequest) (cl : ℕ)
    → AllLines (line ∷ lines)
    → content_length stoul (record (clear r) { headers = line ∷ lines }) ≡ some cl
    → parse_request stoul sscanf_x unset fuel (print_lines (line ∷ lines) ++ (crlf ++ body)) false r
      ≡ (if leb cl (length body)
          then some (
            print_lines (line ∷ lines) ++ (crlf ++ body),
            record (clear r) {
              headers = line ∷ lines;
              body_offset = length (print_lines (line ∷ lines)) + 2;
              body_size = cl;
              body = some (length (print_lines (line ∷ lines)) + 2);
            },
            true,
          )
          else some (
            print_lines (line ∷ lines) ++ (crlf ++ body),
            record (clear r) {
              headers = line ∷ lines;
              body_offset = length (print_lines (line ∷ lines)) + 2;
              body_size = length body;
            },
            false,
          ))
unfolding parse_request is_complete clear
parse_request-lines stoul sscanf_x unset fuel line lines body r cl h length_is =
    let text = print_lines (line ∷ lines) ++ (crlf ++ body) in
    let (i, found) = ends line lines body in
    let size : length text - (length (print_lines (line ∷ lines)) + 2) ≡ length body =
      omega (arith, length-append (print_lines (line ∷ lines)) (crlf ++ body)) in
    let many : length (line ∷ lines) < suc (length text) = omega (
      arith,
      length-print_lines (line ∷ lines),
      length-append (print_lines (line ∷ lines)) (crlf ++ body),
    ) in
    let read =
      lines_from-print (suc (length text)) text 0 (line ∷ lines) body refl (omega arith) h many in
    let start : 0 + length (print_lines (line ∷ lines)) ≡ length (print_lines (line ∷ lines)) =
      omega arith in
    let of_body =
      parse_body-size stoul text (line ∷ lines) (length (print_lines (line ∷ lines))) cl
        (length body) r length_is size in
    elim (Bool-cases (leb cl (length body))) [
      | inl fits ↦
          let r' = record (clear r) {
            headers = line ∷ lines;
            body_offset = length (print_lines (line ∷ lines)) + 2;
            body_size = cl;
            body = some (length (print_lines (line ∷ lines)) + 2);
          } in
          let (kind, typed) = request_type-Returns r' in
          rw
            (
              parse_request,
              found,
              read,
              start,
              of_body,
              fits,
              typed,
              and_false (same_text kind post_word),
            )
            refl
      | inr short ↦
          let r' = record (clear r) {
            headers = line ∷ lines;
            body_offset = length (print_lines (line ∷ lines)) + 2;
            body_size = length body;
          } in
          let (kind, typed) = request_type-Returns r' in
          rw (parse_request, found, read, start, of_body, short, typed) refl
    ]
