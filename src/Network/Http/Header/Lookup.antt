-- ===== src/Network/Http/Header/Lookup.antt =====
-- The headers by name.
use picolibs.Base.{
  ℕ, zero, suc, ◌+◌, ◌≡◌, refl, ap, ◌∙◌, true, false, none, some, List, [], ◌∷◌, ◌++◌, append-nil,
  append_assoc, arith, ◌==◌, ==_iff, length, length-append, drop, take-append_eq, drop-append_eq,
  get_elem?-append_at, replicate, leb,
}
use picolibs.Util.Text.Find.{Without, find_first_of-Without, find_first_of-none}
use picolibs.Network.Http.{
  HttpRequest, find_other, c_str, lower, same_name, is_header, index_from, header_index,
  header_parts, header_at, header,
}

-- A header's line: a name, a colon, spaces and a value.
abbrev pub header_line : List ℕ → ℕ → List ℕ → List ℕ
header_line name spaces value = name ++ (58 ∷ (replicate spaces 32 ++ value))

-- No line is a header of the name.
abbrev pub AllOther : List ℕ → List (List ℕ) → Type 0
AllOther name [] = Unit
AllOther name (line ∷ lines) = (is_header name line ≡ false) × AllOther name lines

same_name_refl : (xs : List ℕ) → same_name xs xs ≡ true
same_name_refl [] = refl
same_name_refl (x ∷ xs) =
    let same : (lower x == lower x) ≡ true = (==_iff (lower x) (lower x)).1 refl in
    rw (same, same_name_refl xs)

is_header-line :
    (name rest : List ℕ) → Without (58 ∷ []) name → is_header name (name ++ (58 ∷ rest)) ≡ true
unfolding is_header
is_header-line name rest h =
    rw
      (
        is_header,
        find_first_of-Without (58 ∷ []) name 58 rest h refl,
        take-append_eq (length name) name (58 ∷ rest) refl,
      )
      (same_name_refl (c_str name))

index_from-AllOther :
    (name line : List ℕ) (ii : ℕ) (front back : List (List ℕ))
    → AllOther name front
    → is_header name line ≡ true
    → index_from name ii (front ++ (line ∷ back)) ≡ some (ii + length front)
unfolding index_from
index_from-AllOther name line ii [] back h here =
    let same : ii + 0 ≡ ii = omega arith in rw (here, same) refl
index_from-AllOther name line ii (x ∷ front) back (h, hs) here =
    let next : suc ii + length front ≡ ii + suc (length front) = omega arith in
    rw h (index_from-AllOther name line (suc ii) front back hs here ∙ ap (λ (n : ℕ). some n) next)

find_other-spaces :
    (spaces x : ℕ) (rest : List ℕ)
    → (x == 32) ≡ false
    → find_other 32 (replicate spaces 32 ++ (x ∷ rest)) ≡ some spaces
unfolding find_other
find_other-spaces zero x rest h = rw h
find_other-spaces (suc spaces) x rest h = rw (find_other-spaces spaces x rest h)

find_other-none : (spaces : ℕ) → find_other 32 (replicate spaces 32) ≡ none
unfolding find_other
find_other-none zero = refl
find_other-none (suc spaces) = rw (find_other-none spaces)

drop-line : (name rest : List ℕ) → drop (length name + 1) (name ++ (58 ∷ rest)) ≡ rest
drop-line name rest =
    let whole : name ++ (58 ∷ rest) ≡ (name ++ (58 ∷ [])) ++ rest = simp (append_assoc) in
    ap (drop (length name + 1)) whole
    ∙ drop-append_eq (length name + 1) (name ++ (58 ∷ [])) rest
        (omega (arith, length-append name (58 ∷ [])))

length-replicate : (n x : ℕ) → length (replicate n x) ≡ n
length-replicate zero x = refl
length-replicate (suc n) x = ap suc (length-replicate n x)

header_parts-value :
    (name : List ℕ) (spaces x : ℕ) (value : List ℕ)
    → Without (58 ∷ []) name
    → (x == 32) ≡ false
    → Without (13 ∷ 10 ∷ []) (x ∷ value)
    → header_parts (header_line name spaces (x ∷ value)) ≡ some (name, x ∷ value)
unfolding header_parts
header_parts-value name spaces x value n other plain =
    let line = header_line name spaces (x ∷ value) in
    let tail = replicate spaces 32 ++ (x ∷ value) in
    let i1 = find_first_of-Without (58 ∷ []) name 58 tail n refl in
    let index : length name + 1 + spaces ≡ length ((name ++ (58 ∷ [])) ++ replicate spaces 32) =
      omega (
        arith,
        length-append (name ++ (58 ∷ [])) (replicate spaces 32),
        length-append name (58 ∷ []),
        length-replicate spaces 32,
      ) in
    let whole : line ≡ ((name ++ (58 ∷ [])) ++ replicate spaces 32) ++ (x ∷ value) =
      simp (append_assoc) in
    let at : drop (length name + 1 + spaces) line ≡ x ∷ value =
      ap (drop (length name + 1 + spaces)) whole
      ∙ drop-append_eq (length name + 1 + spaces) ((name ++ (58 ∷ [])) ++ replicate spaces 32)
          (x ∷ value) index in
    let inside : leb (length name + 1 + spaces) (length line) ≡ true = ground (
      arith,
      ap length whole,
      length-append ((name ++ (58 ∷ [])) ++ replicate spaces 32) (x ∷ value),
      index,
    ) in
    rw
      (
        header_parts,
        i1,
        drop-line name tail,
        find_other-spaces spaces x value other,
        at,
        find_first_of-none (13 ∷ 10 ∷ []) (x ∷ value) plain,
        inside,
        at,
        take-append_eq (length name) name (58 ∷ tail) refl,
      )
      refl

header_parts-empty :
    (name : List ℕ) (spaces : ℕ)
    → Without (58 ∷ []) name
    → header_parts (header_line name spaces []) ≡ none
unfolding header_parts
header_parts-empty name spaces n =
    let tail : List ℕ = replicate spaces 32 ++ [] in
    let only : tail ≡ replicate spaces 32 = append-nil (replicate spaces 32) in
    rw
      (
        header_parts,
        find_first_of-Without (58 ∷ []) name 58 tail n refl,
        drop-line name tail,
        only,
        find_other-none spaces,
      )
      refl

header-index :
    (r : HttpRequest) (name first line : List ℕ) (front back : List (List ℕ))
    → AllOther name (first ∷ front)
    → is_header name line ≡ true
    → r.headers ≡ (first ∷ front) ++ (line ∷ back)
    → header_at (header_index name 0 r) r ≡ header_parts line
unfolding header_index header_at
header-index r name first line front back others here e =
    let place : 0 + length (first ∷ front) ≡ suc (length front) = omega arith in
    rw
      (
        header_index,
        e,
        index_from-AllOther name line 0 (first ∷ front) back others here,
        place,
        header_at,
        get_elem?-append_at (first ∷ front) line back (suc (length front)) refl,
      )
      refl

-- A header behind the request line whose name no line in front of it has is the one that `header` gives: its value
-- without the spaces in front, if it does not hold line ends. Without a value, there is no result: `substr`
-- raises an exception.
pub header_lem :
    (r r' : HttpRequest) (name first : List ℕ) (spaces x : ℕ) (value : List ℕ)
    (front back : List (List ℕ))
    → Without (58 ∷ []) name
    → AllOther name (first ∷ front)
    → (x == 32) ≡ false
    → Without (13 ∷ 10 ∷ []) (x ∷ value)
    → r.headers ≡ (first ∷ front) ++ (header_line name spaces (x ∷ value) ∷ back)
    → r'.headers ≡ (first ∷ front) ++ (header_line name spaces [] ∷ back)
    → (header name r ≡ some (x ∷ value)) × (header name r' ≡ none)
unfolding header
header_lem r r' name first spaces x value front back n others other plain e e' =
    let line = header_line name spaces (x ∷ value) in
    let line' = header_line name spaces [] in
    let here = is_header-line name (replicate spaces 32 ++ (x ∷ value)) n in
    let here' = is_header-line name (replicate spaces 32 ++ []) n in
    let found =
      header-index r name first line front back others here e
      ∙ header_parts-value name spaces x value n other plain in
    let found' =
      header-index r' name first line' front back others here' e'
      ∙ header_parts-empty name spaces n in
    (rw (header, found) refl, rw (header, found') refl)
