-- ===== src/Util/Txt/Edit.antt =====
-- What the operations that change a `TXT` do to the text that it holds.
use picolibs.Base.{
  ℕ, ◌+◌, ◌-◌, ◌<◌, ◌^◌, ◌≡◌, refl, sym, ap, subst, ◌∙◌, false, some, List, [], ◌∷◌, ◌++◌,
  append_assoc, append-nil, arith, ltb, ◌==◌, u32, length, length-append, Bool-cases, inl, inr,
}
use picolibs.Util.Memory.{strncpy_bytes}
use picolibs.Util.Memory.Laws.{
  split_at, read-append, AllNonzero, length-strncpy_bytes, strncpy_bytes_lem,
}
use picolibs.Util.Txt.{Txt, expand, put, assign, append_string, insert, resize, replace}
use picolibs.Util.Txt.Holds.{Holds, HasRoom, Holds-HasRoom, Allocates}
use picolibs.Util.Txt.Grow.{expand-Holds}
use picolibs.Util.Txt.Shrink.{contract-Holds, put-Holds, write-Holds}

-- A text that ends at the end of what is held.
Holds-nil : (t : Txt) (xs ys : List ℕ) → Holds t (xs ++ (ys ++ [])) → Holds t (xs ++ ys)
Holds-nil t xs ys h = subst (λ (m : List ℕ). Holds t (xs ++ m)) (append-nil ys) h

emptied-HasRoom : (t : Txt) (text : List ℕ) → Holds t text → HasRoom (record t { endptr = 0 }) []
emptied-HasRoom t [] h = record {
  next = 0;
  junk = h.junk;
  memory = h.memory;
  ends = refl;
  size = h.size;
  small = h.small;
}
emptied-HasRoom t (x ∷ text) h = record {
  next = x;
  junk = text ++ (0 ∷ h.junk);
  memory = h.memory;
  ends = refl;
  size = h.size;
  small = h.small;
}

module _ (fresh : ℕ → List ℕ) (allocates : Allocates fresh) where
  -- A gap is opened and filled.
  filled :
      (t : Txt) (pre bytes post : List ℕ) (offset : ℕ)
      → offset ≡ length pre
      → HasRoom t (pre ++ post)
      → length pre + length post + length bytes + 2048 < 2 ^ 32
      → (t1 t2 : Txt) × (expand fresh offset (length bytes) t ≡ some t1)
        × (put offset bytes t1 ≡ some t2)
        × Holds t2 (pre ++ (bytes ++ post))
  filled t pre bytes post offset eo h fits =
      let (t1, gap, expanded, h1, len) =
        expand-Holds fresh allocates (length bytes) t pre post offset eo h fits in
      let (t2, written, h2) = put-Holds t1 pre gap post bytes offset eo len h1 in
      (t1, t2, expanded, written, h2)

  -- Assigning a text of either kind, whatever was held before, leaves the bytes that `strncpy` copies.
  assign-Holds :
      (t : Txt) (text old : List ℕ)
      → Holds t old
      → length text + 2048 < 2 ^ 32
      → (t' : Txt) × (assign fresh text t ≡ some t') × Holds t' (strncpy_bytes (length text) text)
  unfolding assign
  assign-Holds t text old h fits =
      let bytes = strncpy_bytes (length text) text in
      let same = length-strncpy_bytes (length text) text in
      let (t1, t2, expanded, written, h2) =
        filled (record t { endptr = 0 }) [] bytes [] 0 refl (emptied-HasRoom t old h)
          (omega (arith, same)) in
      (t2, rw (← same, expanded, same, written) refl, Holds-nil t2 [] bytes h2)

  -- Assigning a text without a terminator in it, whatever was held before, succeeds and leaves exactly
  -- that text, if a memory of its size and 2048 bytes more is below 2 ^ 32 bytes.
  pub assign_refines :
      (t : Txt) (text old : List ℕ)
      → Holds t old
      → AllNonzero text
      → length text + 2048 < 2 ^ 32
      → (t' : Txt) × (assign fresh text t ≡ some t') × Holds t' text
  assign_refines t text old h nonzero fits =
      let (t', assigned, h') = assign-Holds t text old h fits in
      (t', assigned, rw (strncpy_bytes_lem text nonzero) at h')

  -- Appending a `std::string` succeeds and leaves the old text with all of the bytes behind it, zeros among them.
  pub append_string_refines :
      (t : Txt) (text old : List ℕ)
      → Holds t old
      → length old + length text + 2048 < 2 ^ 32
      → (t' : Txt) × (append_string fresh text t ≡ some t') × Holds t' (old ++ text)
  unfolding append_string
  append_string_refines t text old h fits =
      let room = Holds-HasRoom t old h in
      let (t1, t2, expanded, written, h2) =
        filled t old text [] t.endptr h.ends (subst (HasRoom t) (sym (append-nil old)) room)
          (omega arith) in
      (t2, rw (expanded, written) refl, Holds-nil t2 old text h2)

  -- Inserting bytes, of which there is one at least, in front of any part of the text succeeds, puts
  -- them there and answers the offset behind them.
  pub insert_refines :
      (t : Txt) (pre post bytes behind : List ℕ)
      → Holds t (pre ++ post)
      → 0 < length bytes
      → length pre + length post + length bytes + 2048 < 2 ^ 32
      → (t' : Txt) × (insert fresh (length pre) (bytes ++ behind) (length bytes) t
          ≡ some (length pre + length bytes, t'))
        × Holds t' (pre ++ (bytes ++ post))
  unfolding insert
  insert_refines t pre post bytes behind h some_bytes fits =
      let (t1, t2, expanded, written, h2) =
        filled t pre bytes post (length pre) refl (Holds-HasRoom t (pre ++ post) h) fits in
      let given : (length bytes == 0) ≡ false = ground arith in
      let next : u32 (length pre + length bytes) ≡ length pre + length bytes = omega arith in
      (
        t2,
        rw (given, read-append (length bytes) bytes behind refl, expanded, written, next) refl,
        h2,
      )

  -- The part of the text that is replaced gets the length of the replacement.
  resize-Holds :
      (t : Txt) (pre old post : List ℕ) (lr : ℕ)
      → Holds t (pre ++ (old ++ post))
      → length pre + length old + length post + lr + 2048 < 2 ^ 32
      → (t' : Txt) × (cells : List ℕ) × (resize fresh (length pre) (length old) lr t ≡ some t')
        × Holds t' (pre ++ (cells ++ post))
        × (length cells ≡ lr)
  unfolding resize
  resize-Holds t pre old post lr h fits = elim (Bool-cases (ltb (length old) lr)) [
    | inl longer ↦
        let both = length-append pre old in
        let room =
          subst (HasRoom t) (sym (append_assoc pre old post))
            (Holds-HasRoom t (pre ++ (old ++ post)) h) in
        let (t', gap, expanded, h', len) =
          expand-Holds fresh allocates (lr - length old) t (pre ++ old) post
            (length pre + length old) (sym both) room (ground (arith, both, longer)) in
        let same : (pre ++ old) ++ (gap ++ post) ≡ pre ++ ((old ++ gap) ++ post) =
          simp (append_assoc) in
        (
          t',
          old ++ gap,
          rw (longer, expanded) refl,
          subst (Holds t') same h',
          ground (arith, length-append old gap, len, longer),
        )
    | inr enough ↦ elim (Bool-cases (ltb lr (length old))) [
      | inl shorter ↦
          let (kept, cut, e, len) = split_at lr old (ground (arith, shorter)) in
          let size : length old ≡ length kept + length cut = ap length e ∙ length-append kept cut in
          let before : pre ++ (old ++ post) ≡ (pre ++ kept) ++ (cut ++ post) =
            ap (λ (m : List ℕ). pre ++ (m ++ post)) e ∙ simp (append_assoc) in
          let (t', contracted, h') =
            contract-Holds (length old - lr) t (pre ++ kept) cut post (length pre + lr)
              (omega (arith, length-append pre kept, len)) (omega (arith, size, len))
              (subst (Holds t) before h) in
          (
            t',
            kept,
            rw (enough, shorter, contracted) refl,
            subst (Holds t') (append_assoc pre kept post) h',
            len,
          )
      | inr same ↦ (t, old, rw (enough, same) refl, h, ground (arith, enough, same))
    ]
  ]

  -- Replacing any part of the text succeeds, whether the replacement is longer, shorter or as long:
  -- it stands where the part stood, and the rest is as before.
  pub replace_refines :
      (t : Txt) (pre old post replacement : List ℕ)
      → Holds t (pre ++ (old ++ post))
      → length pre + length old + length post + length replacement + 2048 < 2 ^ 32
      → (t' : Txt) × (replace fresh (length pre) (length old) replacement t ≡ some t')
        × Holds t' (pre ++ (replacement ++ post))
  unfolding replace
  replace_refines t pre old post replacement h fits =
      let (t1, cells, resized, h1, len) = resize-Holds t pre old post (length replacement) h fits in
      let (written, h') = write-Holds t1 pre cells post replacement (length pre) refl len h1 in
      (
        record t1 { buffer = some ((pre ++ (replacement ++ post)) ++ (0 ∷ h1.junk)) },
        rw (resized, h1.memory, written) refl,
        h',
      )
