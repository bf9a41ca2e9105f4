-- ===== src/Util/Txt/Grow.antt =====
-- `expand` and `contract` open and close a gap in the text, and keep what stands around it.
use picolibs.Base.{
  ℕ, ◌+◌, ◌*◌, ◌/◌, ◌^◌, ◌≤◌, ◌<◌, ◌≡◌, refl, sym, ap, ◌∙◌, some, List, [], ◌∷◌, ◌++◌, append_assoc,
  arith, leb, u32, sub32, length, length-append, Bool-cases, inl, inr,
}
use picolibs.Util.Memory.{store, read, write, move_up}
use picolibs.Util.Memory.Laws.{store-append, split_at, read-append, write-append, move_up-append}
use picolibs.Util.Txt.{Txt, grow, expand}
use picolibs.Util.Txt.Holds.{Holds, HasRoom, Allocates}

module _ (fresh : ℕ → List ℕ) (allocates : Allocates fresh) where
  -- The text is copied with its terminator.
  reallocated :
      (text junk : List ℕ) (next newsz : ℕ)
      → length text < newsz
      → (junk' : List ℕ) × (read (length text + 1) (text ++ (next ∷ junk))
          ≡ some (text ++ (next ∷ [])))
        × (write (fresh newsz) 0 (text ++ (next ∷ [])) ≡ some (text ++ (next ∷ junk')))
        × (length (text ++ (next ∷ junk')) ≡ newsz)
  reallocated text junk next newsz h =
      let (front, back, e, len) =
        split_at (length text + 1) (fresh newsz) (omega (arith, allocates newsz)) in
      let bytes = text ++ (next ∷ []) in
      let size = length-append text (next ∷ []) in
      (
        back,
        rw (← append_assoc text (next ∷ []) junk)
            (read-append (length text + 1) bytes junk (omega (arith, size))),
        rw (e, ← append_assoc text (next ∷ []) back)
            (write-append bytes front [] back 0 refl (omega (arith, len, size))),
        omega (
          arith,
          length-append text (next ∷ back),
          ap length e,
          length-append front back,
          allocates newsz,
          len,
        ),
      )

  grow-HasRoom :
      (amount : ℕ) (t : Txt) (text : List ℕ)
      → HasRoom t text
      → length text + amount + 2048 < 2 ^ 32
      → (t' : Txt) × (grow fresh amount t ≡ some t')
        × HasRoom t' text
        × (length text + amount < t'.bufsiz)
  unfolding grow
  grow-HasRoom amount t text h fits = elim (Bool-cases (leb t.bufsiz (length text + amount))) [
    | inl full ↦
        let newsz = (length text + amount + 2048) / 2048 * 2048 in
        let (junk, taken, copied, size) = reallocated text h.junk h.next newsz (omega arith) in
        let sum : u32 (t.endptr + amount) ≡ length text + amount = omega (arith, h.ends) in
        let more : u32 (u32 (length text + amount + 2048) / 2048 * 2048) ≡ newsz = omega arith in
        (
          record t { buffer = some (text ++ (h.next ∷ junk)); bufsiz = newsz },
          rw (sum, full, more, h.memory, h.ends, taken, copied) refl,
          record {
            next = h.next;
            junk = junk;
            memory = refl;
            ends = h.ends;
            size = sym size;
            small = omega arith;
          },
          omega arith,
        )
    | inr room ↦
        let sum : u32 (t.endptr + amount) ≡ length text + amount = omega (arith, h.ends) in
        (t, rw (sum, room) refl, h, ground (arith, room))
  ]

  -- The bytes behind a gap, and the new terminator.
  open_gap_over :
      (amount next : ℕ) (pre post junk gap rest : List ℕ) (end : ℕ)
      → end ≡ length pre + length post
      → amount ≤ length junk
      → next ∷ junk ≡ gap ++ rest
      → length gap ≡ amount
      → (gap' junk' memory : List ℕ) × (move_up
            (length post)
            end
            (end + amount)
            ((pre ++ post) ++ (next ∷ junk))
          ≡ some memory)
        × (store memory (end + amount) 0 ≡ some ((pre ++ (gap' ++ post)) ++ (0 ∷ junk')))
        × (length gap' ≡ amount)
        × (length junk' + amount ≡ length junk)
  open_gap_over amount next pre post junk gap [] end ee h e len =
      absurd (omega (arith, ap length e, length-append gap []))
  open_gap_over amount next pre post junk gap (y ∷ rest) end ee h e len =
      let (gap', moved, size) =
        move_up-append (length post) end (end + amount) pre post gap (y ∷ rest) refl ee
          (omega (arith, len)) in
      let before : (pre ++ post) ++ (next ∷ junk) ≡ pre ++ (post ++ (gap ++ (y ∷ rest))) =
        append_assoc pre post (next ∷ junk) ∙ ap (λ (m : List ℕ). pre ++ (post ++ m)) e in
      let after : pre ++ (gap' ++ (post ++ (y ∷ rest))) ≡ (pre ++ (gap' ++ post)) ++ (y ∷ rest) =
        simp (append_assoc) in
      (
        gap',
        rest,
        (pre ++ (gap' ++ post)) ++ (y ∷ rest),
        rw (before, moved, after) refl,
        store-append (pre ++ (gap' ++ post)) rest y (end + amount) 0
            (omega (arith, length-append pre (gap' ++ post), length-append gap' post, len)),
        omega (arith, len),
        omega (arith, ap length e, length-append gap (y ∷ rest), len),
      )

  -- The same, with the gap cut out of the unused bytes.
  open_gap :
      (amount next : ℕ) (pre post junk : List ℕ) (end : ℕ)
      → end ≡ length pre + length post
      → amount ≤ length junk
      → (gap junk' memory : List ℕ) × (move_up
            (length post)
            end
            (end + amount)
            ((pre ++ post) ++ (next ∷ junk))
          ≡ some memory)
        × (store memory (end + amount) 0 ≡ some ((pre ++ (gap ++ post)) ++ (0 ∷ junk')))
        × (length gap ≡ amount)
        × (length junk' + amount ≡ length junk)
  open_gap amount next pre post junk end ee h =
      let (gap, rest, e, len) = split_at amount (next ∷ junk) (omega arith) in
      open_gap_over amount next pre post junk gap rest end ee h e len

  -- A gap of the amount opens at the offset.
  pub expand-Holds :
      (amount : ℕ) (t : Txt) (pre post : List ℕ) (offset : ℕ)
      → offset ≡ length pre
      → HasRoom t (pre ++ post)
      → length pre + length post + amount + 2048 < 2 ^ 32
      → (t' : Txt) × (gap : List ℕ) × (expand fresh offset amount t ≡ some t')
        × Holds t' (pre ++ (gap ++ post))
        × (length gap ≡ amount)
  unfolding expand
  expand-Holds amount t pre post offset eo h fits =
      let whole = length-append pre post in
      let (t1, grown, h1, room) = grow-HasRoom amount t (pre ++ post) h (omega (arith, whole)) in
      let (gap, junk, memory, moved, stored, len, rest) =
        open_gap amount h1.next pre post h1.junk t1.endptr (omega (arith, h1.ends, whole))
          (omega (arith, h1.size, length-append (pre ++ post) (h1.next ∷ h1.junk))) in
      let text = pre ++ (gap ++ post) in
      let size = length-append pre (gap ++ post) in
      let behind : sub32 t1.endptr offset ≡ length post = omega (arith, h1.ends, whole, eo) in
      let end : u32 (t1.endptr + amount) ≡ t1.endptr + amount = omega (arith, h1.ends, whole) in
      (
        record t1 { buffer = some (text ++ (0 ∷ junk)); endptr = t1.endptr + amount },
        gap,
        rw (grown, h1.memory, behind, moved, end, stored) refl,
        record {
          junk = junk;
          memory = refl;
          ends = omega (arith, h1.ends, whole, size, length-append gap post);
          size = omega (
            arith,
            h1.size,
            length-append (pre ++ post) (h1.next ∷ h1.junk),
            length-append text (0 ∷ junk),
            size,
            whole,
            length-append gap post,
            rest,
          );
          small = h1.small;
        },
        len,
      )
