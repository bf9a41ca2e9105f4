-- ===== src/Network/Client/Requests.antt =====
-- One request after the other.
use picolibs.Base.{
  ℕ, ◌+◌, ◌≡◌, refl, sym, ap, ◌∙◌, Bool, true, false, Option, some, List, ◌∷◌, ◌++◌, append_assoc,
  arith, leb, if◌then◌else◌, length, length-append, take, drop, take-append_eq, drop-append_eq,
}
use picolibs.Network.Http.{HttpRequest, clear, is_complete, request_size}
use picolibs.Network.Http.Parse.{crlf, content_length, parse_request}
use picolibs.Network.Http.Parse.Lines.{AllLines, print_lines, parse_request-lines}
use picolibs.Network.Client.{Client, rqst_is_ready, reset_rqst}

-- When a whole request has arrived, with a body of the length that it tells, and more behind it, then the request is
-- ready, with its lines as headers and its body in place, and `resetRqst` leaves what is behind it and a request that
-- is not complete.
pub reset_rqst-rqst_is_ready :
    (stoul sscanf_x : List ℕ → Option ℕ) (unset fuel : ℕ) (line : List ℕ) (lines : List (List ℕ))
    (body rest : List ℕ) (client : Client)
    → AllLines (line ∷ lines)
    → content_length stoul (record (clear client.http) { headers = line ∷ lines })
      ≡ some (length body)
    → client.rqst ≡ print_lines (line ∷ lines) ++ (crlf ++ (body ++ rest))
    → (client' : Client) × (offset : ℕ) × (rqst_is_ready stoul sscanf_x unset fuel client
        ≡ some (true, client'))
      × (client'.http.headers ≡ line ∷ lines)
      × (client'.http.body ≡ some offset)
      × (take client'.http.body_size (drop offset client'.rqst) ≡ body)
      × ((reset_rqst client').rqst ≡ rest)
      × (is_complete (reset_rqst client').http ≡ false)
unfolding rqst_is_ready reset_rqst is_complete request_size clear
reset_rqst-rqst_is_ready stoul sscanf_x unset fuel line lines body rest client h length_is arrived =
    let head = print_lines (line ∷ lines) in
    let text = head ++ (crlf ++ (body ++ rest)) in
    let offset = length head + 2 in
    let fits : leb (length body) (length (body ++ rest)) ≡ true =
      ground (arith, length-append body rest) in
    let http' : HttpRequest = record (clear client.http) {
      headers = line ∷ lines;
      body_offset = offset;
      body_size = length body;
      body = some offset;
    } in
    let parsed : parse_request stoul sscanf_x unset fuel text false client.http
        ≡ some (text, http', true) =
      parse_request-lines stoul sscanf_x unset fuel line lines (body ++ rest) client.http
        (length body) h length_is
      ∙ ap
          (λ (b : Bool).
            if b
            then some (text, http', true)
            else some (
              text,
              record (clear client.http) {
                headers = line ∷ lines;
                body_offset = offset;
                body_size = length (body ++ rest);
              },
              false,
            ))
          fits in
    let front : text ≡ (head ++ crlf) ++ (body ++ rest) = simp (append_assoc) in
    let at : drop offset text ≡ body ++ rest =
      ap (drop offset) front
      ∙ drop-append_eq offset (head ++ crlf) (body ++ rest) (sym (length-append head crlf)) in
    let whole : text ≡ ((head ++ crlf) ++ body) ++ rest = simp (append_assoc) in
    let past : drop (offset + length body) text ≡ rest =
      ap (drop (offset + length body)) whole
      ∙ drop-append_eq (offset + length body) ((head ++ crlf) ++ body) rest
          (omega (arith, length-append (head ++ crlf) body, length-append head crlf)) in
    (
      record { rqst = text; http = http' },
      offset,
      rw (rqst_is_ready, arrived, parsed) refl,
      refl,
      refl,
      ap (take (length body)) at ∙ take-append_eq (length body) body rest refl,
      past,
      refl,
    )
