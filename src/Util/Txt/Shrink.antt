-- ===== src/Util/Txt/Shrink.antt =====
-- `contract` closes a gap in the text, and bytes are put over others.
use picolibs.Base.{
  ℕ, ◌+◌, ◌≡◌, refl, sym, ap, ◌∙◌, some, List, [], ◌∷◌, ◌++◌, append_assoc, arith, sub32, length,
  length-append,
}
use picolibs.Util.Memory.{store, write, move_down}
use picolibs.Util.Memory.Laws.{store-append, write-append, move_down-append}
use picolibs.Util.Txt.{Txt, put, contract}
use picolibs.Util.Txt.Holds.{Holds}

-- The text goes on behind the first bytes of what is unused.
unused :
    (n : ℕ) (junk2 junk : List ℕ)
    → n ≡ length junk2
    → (y : ℕ) × (rest : List ℕ) × (junk2 ++ (0 ∷ junk) ≡ y ∷ rest) × (length rest ≡ n + length junk)
unused n [] junk e = (0, junk, refl, omega arith)
unused n (y ∷ junk2) junk e =
    (y, junk2 ++ (0 ∷ junk), refl, omega (arith, length-append junk2 (0 ∷ junk)))

close_gap :
    (amount offset : ℕ) (pre gap post junk : List ℕ)
    → offset ≡ length pre
    → amount ≡ length gap
    → (junk' memory : List ℕ) × (move_down
          (length post)
          (offset + amount)
          offset
          ((pre ++ (gap ++ post)) ++ (0 ∷ junk))
        ≡ some memory)
      × (store memory (length pre + length post) 0 ≡ some ((pre ++ post) ++ (0 ∷ junk')))
      × (length junk' ≡ amount + length junk)
close_gap amount offset pre gap post junk eo eg =
    let (junk2, moved, size) =
      move_down-append (length post) (offset + amount) offset pre gap post (0 ∷ junk) refl eo
        (omega (arith, eg)) in
    let (y, rest, e, len) = unused amount junk2 junk (omega (arith, size, eg)) in
    let before : (pre ++ (gap ++ post)) ++ (0 ∷ junk) ≡ pre ++ (gap ++ (post ++ (0 ∷ junk))) =
      simp (append_assoc) in
    let after : pre ++ (post ++ (junk2 ++ (0 ∷ junk))) ≡ (pre ++ post) ++ (y ∷ rest) =
      ap (λ (m : List ℕ). pre ++ (post ++ m)) e ∙ sym (append_assoc pre post (y ∷ rest)) in
    (
      rest,
      (pre ++ post) ++ (y ∷ rest),
      rw (before, moved, after) refl,
      store-append (pre ++ post) rest y (length pre + length post) 0 (sym (length-append pre post)),
      len,
    )

-- The bytes of the amount at the offset are taken out.
pub contract-Holds :
    (amount : ℕ) (t : Txt) (pre gap post : List ℕ) (offset : ℕ)
    → offset ≡ length pre
    → amount ≡ length gap
    → Holds t (pre ++ (gap ++ post))
    → (t' : Txt) × (contract offset amount t ≡ some t') × Holds t' (pre ++ post)
unfolding contract
contract-Holds amount t pre gap post offset eo eg h =
    let whole : length (pre ++ (gap ++ post)) ≡ length pre + length gap + length post =
      omega (arith, length-append pre (gap ++ post), length-append gap post) in
    let total = length-append (pre ++ (gap ++ post)) (0 ∷ h.junk) in
    let (junk, memory, moved, stored, len) = close_gap amount offset pre gap post h.junk eo eg in
    let behind : sub32 (sub32 t.endptr offset) amount ≡ length post =
      omega (arith, h.ends, whole, eo, eg, h.size, h.small, total) in
    let end : sub32 t.endptr amount ≡ length pre + length post =
      omega (arith, h.ends, whole, eg, h.size, h.small, total) in
    (
      record t { buffer = some ((pre ++ post) ++ (0 ∷ junk)); endptr = length pre + length post },
      rw (h.memory, behind, moved, end, stored) refl,
      record {
        junk = junk;
        memory = refl;
        ends = sym (length-append pre post);
        size = omega (
          arith,
          h.size,
          total,
          whole,
          len,
          eg,
          length-append (pre ++ post) (0 ∷ junk),
          length-append pre post,
        );
        small = h.small;
      },
    )

-- Bytes are put over as many others.
pub write-Holds :
    (t : Txt) (pre old post bytes : List ℕ) (i : ℕ)
    → i ≡ length pre
    → length old ≡ length bytes
    → (h : Holds t (pre ++ (old ++ post)))
    → (write ((pre ++ (old ++ post)) ++ (0 ∷ h.junk)) i bytes
        ≡ some ((pre ++ (bytes ++ post)) ++ (0 ∷ h.junk)))
      × Holds
          (record t { buffer = some ((pre ++ (bytes ++ post)) ++ (0 ∷ h.junk)) })
          (pre ++ (bytes ++ post))
write-Holds t pre old post bytes i ei len h =
    let before : (pre ++ (old ++ post)) ++ (0 ∷ h.junk) ≡ pre ++ (old ++ (post ++ (0 ∷ h.junk))) =
      simp (append_assoc) in
    let after : pre ++ (bytes ++ (post ++ (0 ∷ h.junk)))
        ≡ (pre ++ (bytes ++ post)) ++ (0 ∷ h.junk) =
      simp (append_assoc) in
    let same : length (pre ++ (bytes ++ post)) ≡ length (pre ++ (old ++ post)) = omega (
      arith,
      len,
      length-append pre (bytes ++ post),
      length-append bytes post,
      length-append pre (old ++ post),
      length-append old post,
    ) in
    (
      ap (λ (m : List ℕ). write m i bytes) before
          ∙ write-append bytes old pre (post ++ (0 ∷ h.junk)) i ei len
          ∙ ap (λ (m : List ℕ). some m) after,
      record {
        junk = h.junk;
        memory = refl;
        ends = h.ends ∙ sym same;
        size = omega (
          arith,
          h.size,
          same,
          length-append (pre ++ (old ++ post)) (0 ∷ h.junk),
          length-append (pre ++ (bytes ++ post)) (0 ∷ h.junk),
        );
        small = h.small;
      },
    )

-- So too with a terminator put behind the text.
pub put-Holds :
    (t : Txt) (pre old post bytes : List ℕ) (i : ℕ)
    → i ≡ length pre
    → length old ≡ length bytes
    → Holds t (pre ++ (old ++ post))
    → (t' : Txt) × (put i bytes t ≡ some t') × Holds t' (pre ++ (bytes ++ post))
unfolding put
put-Holds t pre old post bytes i ei len h =
    let (written, h') = write-Holds t pre old post bytes i ei len h in
    (
      record t { buffer = some ((pre ++ (bytes ++ post)) ++ (0 ∷ h.junk)) },
      rw (h.memory, written, store-append (pre ++ (bytes ++ post)) h.junk 0 t.endptr 0 h'.ends)
          refl,
      h',
    )
