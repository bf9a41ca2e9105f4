-- ===== src/Util/Memory/Laws.antt =====
-- What the accesses make of an array that is given by its parts.
use picolibs.Base.{
  ℕ, zero, suc, ◌+◌, ◌≤◌, ◌<◌, ◌≡◌, refl, sym, ap, ◌∙◌, true, false, some, List, [], ◌∷◌, ◌++◌,
  append_assoc, arith, ltb, lt→ltb, leb, ◌==◌, get_elem?, length, replicate, length-append,
  get_elem?-append_at, set-append_at, take-append_eq,
}
use picolibs.Util.Memory.{store, read, write, move_up, move_down, c_text, strncpy_bytes}

pub store-append :
    (pre post : List ℕ) (y i v : ℕ)
    → i ≡ length pre
    → store (pre ++ (y ∷ post)) i v ≡ some (pre ++ (v ∷ post))
unfolding store
store-append pre post y i v e =
    let inside : ltb i (length (pre ++ (y ∷ post))) ≡ true =
      lt→ltb _ _ (omega (arith, length-append pre (y ∷ post))) in
    rw (inside, set-append_at pre y post i v e)
      (ap (λ (xs : List ℕ). some xs) (append_assoc pre (v ∷ []) post))

-- The parts of a list that is not empty, its last element apart.
pub unsnoc :
    (x : ℕ) (xs : List ℕ)
    → (ys : List ℕ) × (y : ℕ) × (x ∷ xs ≡ ys ++ (y ∷ [])) × (length ys ≡ length xs)
unsnoc x [] = ([], x, refl, refl)
unsnoc x (x' ∷ xs) =
    let (ys, y, e, len) = unsnoc x' xs in (x ∷ ys, y, ap (◌∷◌ x) e, omega (arith, len))

-- The cells of an array that has room for as many.
pub split_at :
    (n : ℕ) (xs : List ℕ)
    → n ≤ length xs
    → (front back : List ℕ) × (xs ≡ front ++ back) × (length front ≡ n)
split_at zero xs h = ([], xs, refl, refl)
split_at (suc n) [] h = absurd (omega arith)
split_at (suc n) (x ∷ xs) h =
    let (front, back, e, len) = split_at n xs (omega arith) in
    (x ∷ front, back, ap (◌∷◌ x) e, omega (arith, len))

pub read-append : (n : ℕ) (pre post : List ℕ) → n ≡ length pre → read n (pre ++ post) ≡ some pre
unfolding read
read-append n pre post e =
    let inside : leb n (length (pre ++ post)) ≡ true = ground (arith, length-append pre post) in
    rw (inside, take-append_eq n pre post e)

pub write-append :
    (xs old pre post : List ℕ) (i : ℕ)
    → i ≡ length pre
    → length old ≡ length xs
    → write (pre ++ (old ++ post)) i xs ≡ some (pre ++ (xs ++ post))
unfolding write
write-append [] [] pre post i e len = refl
write-append [] (y ∷ old) pre post i e len = absurd (omega arith)
write-append (x ∷ xs) [] pre post i e len = absurd (omega arith)
write-append (x ∷ xs) (y ∷ old) pre post i e len =
    rw
      (
        store-append pre (old ++ post) y i x e,
        ← append_assoc pre (x ∷ []) (old ++ post),
        write-append xs old (pre ++ (x ∷ [])) post (i + 1)
            (omega (arith, length-append pre (x ∷ []))) (omega arith),
        append_assoc pre (x ∷ []) (xs ++ post),
      )
      refl

get_of :
    (memory pre : List ℕ) (x : ℕ) (post : List ℕ) (i : ℕ)
    → memory ≡ pre ++ (x ∷ post)
    → i ≡ length pre
    → get_elem? memory i ≡ some x
get_of memory pre x post i e len = rw e (get_elem?-append_at pre x post i len)

store_of :
    (memory pre post : List ℕ) (y i v : ℕ)
    → memory ≡ pre ++ (y ∷ post)
    → i ≡ length pre
    → store memory i v ≡ some (pre ++ (v ∷ post))
store_of memory pre post y i v e len = rw e (store-append pre post y i v len)

-- Bytes that are moved up over a gap leave the gap below them.
pub move_up-append :
    (n src dst : ℕ) (pre mid gap post : List ℕ)
    → n ≡ length mid
    → src ≡ length pre + length mid
    → dst ≡ src + length gap
    → (gap' : List ℕ) × (move_up n src dst (pre ++ (mid ++ (gap ++ post)))
        ≡ some (pre ++ (gap' ++ (mid ++ post))))
      × (length gap' ≡ length gap)
unfolding move_up
move_up-append zero src dst pre [] gap post en es ed = (gap, refl, refl)
move_up-append zero src dst pre (x ∷ mid) gap post en es ed = absurd (omega arith)
move_up-append (suc n) src dst pre [] gap post en es ed = absurd (omega arith)
move_up-append (suc n) zero dst pre (x ∷ mid) gap post en es ed = absurd (omega arith)
move_up-append (suc n) (suc src) zero pre (x ∷ mid) gap post en es ed = absurd (omega arith)
move_up-append (suc n) (suc src) (suc dst) pre (x ∷ mid) gap post en es ed =
    let (ys, y, e, len) = unsnoc x mid in
    let (gap', z, e', len') = unsnoc y gap in
    let front = (pre ++ ys) ++ gap' in
    let memory = pre ++ ((x ∷ mid) ++ (gap ++ post)) in
    let from : memory ≡ (pre ++ ys) ++ (y ∷ (gap ++ post)) =
      ap (λ (m : List ℕ). pre ++ (m ++ (gap ++ post))) e ∙ simp (append_assoc) in
    let to : memory ≡ front ++ (z ∷ post) =
      from ∙ ap (λ (m : List ℕ). (pre ++ ys) ++ (m ++ post)) e' ∙ simp (append_assoc) in
    let back : front ++ (y ∷ post) ≡ pre ++ (ys ++ (gap' ++ (y ∷ post))) = simp (append_assoc) in
    let (result, moved, size) =
      move_up-append n src dst pre ys gap' (y ∷ post) (omega arith) (omega (arith, es, len))
        (omega (arith, ed, len')) in
    let whole : pre ++ (result ++ (ys ++ (y ∷ post))) ≡ pre ++ (result ++ ((x ∷ mid) ++ post)) =
      ap (λ (m : List ℕ). pre ++ (result ++ m)) (sym (append_assoc ys (y ∷ []) post))
      ∙ ap (λ (m : List ℕ). pre ++ (result ++ (m ++ post))) (sym e) in
    (
      result,
      rw
          (
            get_of memory (pre ++ ys) y (gap ++ post) src from
                (omega (arith, length-append pre ys, es, len)),
            store_of memory front post z dst y to (
                omega
                  (arith, length-append (pre ++ ys) gap', length-append pre ys, ed, es, len, len')),
            back,
            moved,
          )
          (ap (λ (m : List ℕ). some m) whole),
      size ∙ len',
    )

-- The first element of a list that has a last one.
cons_of_snoc :
    (xs : List ℕ) (x : ℕ)
    → (y : ℕ) × (ys : List ℕ) × (xs ++ (x ∷ []) ≡ y ∷ ys) × (length ys ≡ length xs)
cons_of_snoc [] x = (x, [], refl, refl)
cons_of_snoc (x' ∷ xs) x = (x', xs ++ (x ∷ []), refl, omega (arith, length-append xs (x ∷ [])))

-- Bytes that are moved down over a gap leave cells above them.
pub move_down-append :
    (n src dst : ℕ) (pre gap mid post : List ℕ)
    → n ≡ length mid
    → dst ≡ length pre
    → src ≡ dst + length gap
    → (junk : List ℕ) × (move_down n src dst (pre ++ (gap ++ (mid ++ post)))
        ≡ some (pre ++ (mid ++ (junk ++ post))))
      × (length junk ≡ length gap)
unfolding move_down
move_down-append zero src dst pre gap [] post en es ed = (gap, refl, refl)
move_down-append zero src dst pre gap (x ∷ mid) post en es ed = absurd (omega arith)
move_down-append (suc n) src dst pre gap [] post en es ed = absurd (omega arith)
move_down-append (suc n) src dst pre gap (x ∷ mid) post en es ed =
    let (y, gap', e, len) = cons_of_snoc gap x in
    let memory = pre ++ (gap ++ ((x ∷ mid) ++ post)) in
    let from : memory ≡ (pre ++ gap) ++ (x ∷ (mid ++ post)) = simp (append_assoc) in
    let to : memory ≡ pre ++ (y ∷ (gap' ++ (mid ++ post))) =
      ap (◌++◌ pre) (sym (append_assoc gap (x ∷ []) (mid ++ post)))
      ∙ ap (λ (m : List ℕ). pre ++ (m ++ (mid ++ post))) e in
    let next : pre ++ (x ∷ (gap' ++ (mid ++ post))) ≡ (pre ++ (x ∷ [])) ++ (gap' ++ (mid ++ post)) =
      sym (append_assoc pre (x ∷ []) (gap' ++ (mid ++ post))) in
    let (junk, moved, size) =
      move_down-append n (src + 1) (dst + 1) (pre ++ (x ∷ [])) gap' mid post (omega arith)
        (omega (arith, es, length-append pre (x ∷ []))) (omega (arith, ed, len)) in
    (
      junk,
      rw
          (
            get_of memory (pre ++ gap) x (mid ++ post) src from
                (omega (arith, length-append pre gap, es, ed)),
            store_of memory pre (gap' ++ (mid ++ post)) y dst x to es,
            next,
            moved,
          )
          (ap (λ (m : List ℕ). some m) (append_assoc pre (x ∷ []) (mid ++ (junk ++ post)))),
      size ∙ len,
    )

-- Text without a terminator in it, in front of one.
abbrev pub AllNonzero : List ℕ → Type 0
AllNonzero [] = Unit
AllNonzero (x ∷ xs) = (0 < x) × AllNonzero xs

pub c_text-append : (xs post : List ℕ) → AllNonzero xs → c_text (xs ++ (0 ∷ post)) ≡ some xs
unfolding c_text
c_text-append [] post h = refl
c_text-append (x ∷ xs) post h =
    let more : (x == 0) ≡ false = ground arith in rw (more, c_text-append xs post h.1)

length-replicate : (n : ℕ) → length (replicate n (let z : ℕ = 0 in z)) ≡ n
length-replicate zero = refl
length-replicate (suc n) = ap suc (length-replicate n)

pub length-strncpy_bytes : (n : ℕ) (xs : List ℕ) → length (strncpy_bytes n xs) ≡ n
unfolding strncpy_bytes
length-strncpy_bytes zero xs = refl
length-strncpy_bytes (suc n) [] = ap suc (length-replicate n)
length-strncpy_bytes (suc n) (x ∷ xs) =
    ground (arith, length-replicate n, length-strncpy_bytes n xs)

-- Text without a terminator is copied as it is.
pub strncpy_bytes_lem : (xs : List ℕ) → AllNonzero xs → strncpy_bytes (length xs) xs ≡ xs
unfolding strncpy_bytes
strncpy_bytes_lem [] h = refl
strncpy_bytes_lem (x ∷ xs) h =
    let more : (x == 0) ≡ false = ground arith in rw (more, strncpy_bytes_lem xs h.1)
