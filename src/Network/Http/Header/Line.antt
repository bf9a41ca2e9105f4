-- ===== src/Network/Http/Header/Line.antt =====
-- The request line: its three parts, and what `setURL` makes of it.
use picolibs.Base.{
  ℕ, ◌+◌, ◌-◌, ◌<◌, ◌≡◌, refl, ap, ◌∙◌, false, some, List, [], ◌∷◌, ◌++◌, append_assoc, arith, ◌==◌,
  length, length-append, take, drop, take-append_eq, drop-append_eq, get_elem?,
}
use picolibs.Util.Text.Tokens.{parts, split_lem}
use picolibs.Util.Text.Find.{Without, find_first_of-Without}
use picolibs.Network.Http.{
  HttpRequest, find_other, start_token, request_type, url, path, set_url_line, set_url,
}

-- A request line, from its method, URL and version.
abbrev pub request_line : List ℕ → List ℕ → List ℕ → List ℕ
request_line method address version = method ++ (32 ∷ (address ++ (32 ∷ version)))

parts-Without :
    (pre rest : List ℕ)
    → Without (32 ∷ []) pre
    → parts (32 ∷ []) (pre ++ (32 ∷ rest)) ≡ pre ∷ parts (32 ∷ []) rest
parts-Without [] rest h = refl
parts-Without (x ∷ pre) rest (h, hs) = rw (h, parts-Without pre rest hs)

parts-last : (xs : List ℕ) → Without (32 ∷ []) xs → parts (32 ∷ []) xs ≡ xs ∷ []
parts-last [] h = refl
parts-last (x ∷ xs) (h, hs) = rw (h, parts-last xs hs)

-- The three parts of a request line.
pub start_token-request_line :
    (r : HttpRequest) (method address version : List ℕ) (lines : List (List ℕ)) (k : ℕ)
    → Without (32 ∷ []) method
    → Without (32 ∷ []) address
    → Without (32 ∷ []) version
    → r.headers ≡ request_line method address version ∷ lines
    → start_token k r ≡ get_elem? (method ∷ address ∷ version ∷ []) k
unfolding start_token
start_token-request_line r method address version lines k m a v e =
    let tokens : parts (32 ∷ []) (request_line method address version)
        ≡ method ∷ address ∷ version ∷ [] =
      parts-Without method (address ++ (32 ∷ version)) m
      ∙ ap (◌∷◌ method)
          (parts-Without address version a ∙ ap (◌∷◌ address) (parts-last version v)) in
    rw (start_token, e, split_lem (request_line method address version) (32 ∷ []), tokens) refl

find_other-first :
    (xs rest : List ℕ)
    → 0 < length xs
    → Without (32 ∷ []) xs
    → find_other 32 (32 ∷ (xs ++ rest)) ≡ some 1
unfolding find_other
find_other-first [] rest more h = absurd (omega arith)
find_other-first (x ∷ xs) rest more (h, hs) =
    let other : (x == 32) ≡ false = ground (arith, h) in rw other

pub set_url_line-request_line :
    (method address version newurl : List ℕ)
    → Without (32 ∷ []) method
    → 0 < length address
    → Without (32 ∷ []) address
    → set_url_line newurl (request_line method address version) ≡ request_line method newurl version
unfolding set_url_line
set_url_line-request_line method address version newurl m more a =
    let line = request_line method address version in
    let rest = address ++ (32 ∷ version) in
    let i0 = find_first_of-Without (32 ∷ []) method 32 rest m refl in
    let d0 : drop (length method) line ≡ 32 ∷ rest =
      drop-append_eq (length method) method (32 ∷ rest) refl in
    let i1 = find_other-first address (32 ∷ version) more a in
    let whole : line ≡ (method ++ (32 ∷ [])) ++ rest = simp (append_assoc) in
    let size : length method + 1 ≡ length (method ++ (32 ∷ [])) =
      omega (arith, length-append method (32 ∷ [])) in
    let d1 : drop (length method + 1) line ≡ rest =
      ap (drop (length method + 1)) whole
      ∙ drop-append_eq (length method + 1) (method ++ (32 ∷ [])) rest size in
    let i2 = find_first_of-Without (32 ∷ []) address 32 version a refl in
    let t1 : take (length method + 1) line ≡ method ++ (32 ∷ []) =
      ap (take (length method + 1)) whole
      ∙ take-append_eq (length method + 1) (method ++ (32 ∷ [])) rest size in
    let index : length method + 1 + (length method + 1 + length address - (length method + 1))
        ≡ length (method ++ (32 ∷ address)) =
      omega (arith, length-append method (32 ∷ address)) in
    let whole' : line ≡ (method ++ (32 ∷ address)) ++ (32 ∷ version) = simp (append_assoc) in
    let d2 : drop (length (method ++ (32 ∷ address))) line ≡ 32 ∷ version =
      ap (drop (length (method ++ (32 ∷ address)))) whole'
      ∙ drop-append_eq (length (method ++ (32 ∷ address))) (method ++ (32 ∷ address)) (32 ∷ version)
          refl in
    rw (set_url_line, i0, d0, i1, d1, i2, index, t1, d2) (simp (append_assoc))

set_url-headers :
    (r : HttpRequest) (newurl line : List ℕ) (lines : List (List ℕ))
    → r.headers ≡ line ∷ lines
    → (set_url newurl r).headers ≡ set_url_line newurl line ∷ lines
unfolding set_url
set_url-headers r newurl line lines e = rw (set_url, e) refl

-- On a request line of a method, a URL that is not empty and a version, without spaces in them, `type` is the
-- method, `url` is the URL, and `path` is the URL up to its question mark. `setURL` to a URL without spaces
-- changes what `url` gives, and neither the type nor the other lines.
pub set_url_lem :
    (r : HttpRequest) (method address rest version newurl : List ℕ) (lines : List (List ℕ))
    → Without (32 ∷ []) method
    → 0 < length address
    → Without (32 ∷ []) (address ++ (63 ∷ rest))
    → Without (63 ∷ []) address
    → Without (32 ∷ []) version
    → Without (32 ∷ []) newurl
    → r.headers ≡ request_line method (address ++ (63 ∷ rest)) version ∷ lines
    → (request_type r ≡ some method)
      × (url r ≡ some (address ++ (63 ∷ rest)))
      × (path r ≡ some address)
      × (request_type (set_url newurl r) ≡ some method)
      × (url (set_url newurl r) ≡ some newurl)
      × ((set_url newurl r).headers ≡ request_line method newurl version ∷ lines)
unfolding request_type url path
set_url_lem r method address rest version newurl lines m more a q v n e =
    let whole = address ++ (63 ∷ rest) in
    let after : (set_url newurl r).headers ≡ request_line method newurl version ∷ lines =
      set_url-headers r newurl (request_line method whole version) lines e
      ∙ ap (λ (line : List ℕ). line ∷ lines)
          (set_url_line-request_line method whole version newurl m
            (omega (arith, length-append address (63 ∷ rest))) a) in
    let token = start_token-request_line r method whole version lines in
    let token' = start_token-request_line (set_url newurl r) method newurl version lines in
    (
      token 0 m a v e,
      token 1 m a v e,
      rw (token 1 m a v e, find_first_of-Without (63 ∷ []) address 63 rest q refl)
          (ap (λ (l : List ℕ). some l) (take-append_eq (length address) address (63 ∷ rest) refl)),
      token' 0 m n v after,
      token' 1 m n v after,
      after,
    )
