-- ===== src/Network/Ws/InPlace.antt =====
-- `WS::BuildPacket` (network/ws.cpp) over a `TXT`: the header is inserted in front of the payload,
-- and the mask runs over the buffer.
use picolibs.Base.{
  ℕ, zero, suc, ◌+◌, ◌-◌, ◌%◌, ◌^◌, ◌≤◌, ◌<◌, ◌≡◌, refl, sym, ap, ◌∙◌, Bool, true, false, ◌&&◌,
  Option, none, some, List, [], ◌∷◌, ◌++◌, append_assoc, append-nil, bit_xor, arith, ltb,
  if◌then◌else◌, ◌>>=◌, get_elem?, set, length, length-append, length-set, get_elem?-inside,
  Option-cases, inl, inr,
}
use picolibs.Util.Txt.{Txt, insert}
use picolibs.Util.Txt.Holds.{Holds, Allocates}
use picolibs.Util.Txt.Edit.{insert_refines}
use picolibs.Util.Memory.Laws.{split_at}
use picolibs.Network.Ws.{Key, xor_loop, key_bytes, extended_len, header_bytes, build_packet}
use picolibs.Network.Ws.Mask.{mask_from, xor_loop_lem}

-- The loop over the mask, which takes the size of the text with its header.
unfoldable pub mask_in_place : Key → ℕ → Txt → Option Txt
mask_in_place key index t = do
  memory ← t.buffer
  memory' ← xor_loop key t.endptr 0 index memory
  some (record t { buffer = some memory' })

module _ (fresh : ℕ → List ℕ) where
  -- `n` is the size that `datasize` returns before the header is inserted.
  unfoldable pub build_sized : ℕ → Bool → Key → ℕ → Txt → Option (ℕ × Txt)
  build_sized opcode mask key n t =
      let masked = mask && ltb 0 n in
      let hdr = header_bytes opcode n masked key in
      (do
        inserted ← insert fresh 0 hdr (length hdr) t
        t' ← (if masked then mask_in_place key (length hdr) inserted.1 else some inserted.1)
        some (t'.endptr, t'))

  unfoldable pub build_in_place : ℕ → Bool → Key → Txt → Option (ℕ × Txt)
  build_in_place opcode mask key t = build_sized opcode mask key t.endptr t

header_bytes_small :
    (opcode n : ℕ) (masked : Bool) (key : Key)
    → (2 ≤ length (header_bytes opcode n masked key))
      × (length (header_bytes opcode n masked key) ≤ 14)
unfolding header_bytes extended_len
header_bytes_small opcode n masked key =
    ground (arith, length-append (extended_len n) (key_bytes masked key))

module _ (fresh : ℕ → List ℕ) (allocates : Allocates fresh) where
  -- The header stands in front of the payload.
  header_inserted :
      (opcode : ℕ) (masked : Bool) (key : Key) (t : Txt) (payload : List ℕ)
      → Holds t payload
      → length payload + 14 + 2048 < 2 ^ 32
      → let hdr = header_bytes opcode (length payload) masked key in
        (t' : Txt) × (insert fresh 0 hdr (length hdr) t ≡ some (length hdr, t'))
        × Holds t' (hdr ++ payload)
  header_inserted opcode masked key t payload h fits =
      let hdr = header_bytes opcode (length payload) masked key in
      let (at_least, at_most) = header_bytes_small opcode (length payload) masked key in
      let (t', inserted, h') =
        insert_refines fresh allocates t [] payload hdr [] h (omega arith) (omega arith) in
      (
        t',
        ap (λ (m : List ℕ). insert fresh 0 m (length hdr) t) (sym (append-nil hdr))
            ∙ inserted
            ∙ ap (λ (k : ℕ). some (k, t')) (omega arith),
        h',
      )

  -- Without a mask, the packet in a buffer is that which is built as a string.
  pub build_in_place_unmasked :
      (opcode : ℕ) (mask : Bool) (key : Key) (t : Txt) (payload : List ℕ)
      → Holds t payload
      → (mask && ltb 0 (length payload)) ≡ false
      → length payload + 14 + 2048 < 2 ^ 32
      → (t' : Txt) × (packet : List ℕ) × (build_in_place fresh opcode mask key t
          ≡ some (length packet, t'))
        × (build_packet opcode payload mask key ≡ some packet)
        × Holds t' packet
  unfolding build_in_place build_sized build_packet
  build_in_place_unmasked opcode mask key t payload h plain fits =
      let (t', inserted, h') = header_inserted opcode false key t payload h fits in
      let hdr = header_bytes opcode (length payload) false key in
      (
        t',
        hdr ++ payload,
        ap (λ (n : ℕ). build_sized fresh opcode mask key n t) h.ends
            ∙ rw (plain, inserted) refl
            ∙ ap (λ (n : ℕ). some (n, t')) h'.ends,
        rw plain refl,
        h',
      )

-- The loop fails where it leaves the buffer.
xor_loop_outside :
    (key : Key) (left i index : ℕ) (packet : List ℕ)
    → length packet < index + i + left
    → index + i ≤ length packet
    → xor_loop key left i index packet ≡ none
unfolding xor_loop
xor_loop_outside key zero i index packet h inside = absurd (omega arith)
xor_loop_outside key (suc left) i index packet h inside =
    elim (Option-cases (get_elem? packet (index + i))) [
      | inl e ↦ rw e
      | inr (byte, e) ↦
          let next = set packet (index + i) (bit_xor byte (key (i % 4))) in
          let same = length-set packet (index + i) (bit_xor byte (key (i % 4))) in
          let here = get_elem?-inside packet (index + i) byte e in
          rw e (
            xor_loop_outside key left (i + 1) index next (omega (arith, same))
              (omega (arith, same)))
    ]

mask_from-append :
    (key : Key) (i : ℕ) (xs ys : List ℕ)
    → mask_from key i (xs ++ ys) ≡ mask_from key i xs ++ mask_from key (i + length xs) ys
mask_from-append key i [] ys = ap (λ (k : ℕ). mask_from key k ys) (omega arith)
mask_from-append key i (x ∷ xs) ys = ap (◌∷◌ (bit_xor x (key (i % 4)))) (
    mask_from-append key (i + 1) xs ys
    ∙ ap (λ (k : ℕ). mask_from key (i + 1) xs ++ mask_from key k ys) (omega arith))

-- The loop goes over a text, its terminator and more.
xor_loop_beyond :
    (key : Key) (pre payload junk : List ℕ) (size : ℕ)
    → size ≡ length pre
    → 0 < size
    → size ≤ length junk + 1
    → (behind : List ℕ) × (xor_loop key
          (size + length payload)
          0
          size
          ((pre ++ payload) ++ (0 ∷ junk))
        ≡ some
            (pre ++ (mask_from key 0 payload ++ (bit_xor 0 (key (length payload % 4)) ∷ behind))))
xor_loop_beyond key pre payload junk size e some_bytes room =
    let (front, back, whole, len) = split_at (size - 1) junk (omega arith) in
    let n = length payload in
    let xs = payload ++ (0 ∷ front) in
    let at_front : (pre ++ payload) ++ (0 ∷ junk) ≡ pre ++ (xs ++ back) =
      ap (λ (m : List ℕ). (pre ++ payload) ++ (0 ∷ m)) whole ∙ simp (append_assoc) in
    let count : size + n ≡ length xs = omega (arith, length-append payload (0 ∷ front), len) in
    let key_at : (0 + n) % 4 ≡ n % 4 = omega arith in
    let parts : mask_from key 0 xs ++ back
        ≡ mask_from key 0 payload
          ++ (bit_xor 0 (key (n % 4)) ∷ (mask_from key (0 + n + 1) front ++ back)) =
      ap (λ (m : List ℕ). m ++ back) (mask_from-append key 0 payload (0 ∷ front))
      ∙ append_assoc (mask_from key 0 payload) (mask_from key (0 + n) (0 ∷ front)) back
      ∙ ap
          (λ (k : ℕ).
            mask_from key 0 payload
            ++ (bit_xor 0 (key k) ∷ (mask_from key (0 + n + 1) front ++ back)))
          key_at in
    (
      mask_from key (0 + n + 1) front ++ back,
      rw (at_front, count)
          (xor_loop_lem key xs pre back 0 size (omega (arith, e))
            ∙ ap (λ (m : List ℕ). some (pre ++ m)) parts),
    )

mask_in_place_lem :
    (key : Key) (size : ℕ) (t : Txt) (text : List ℕ) (n : ℕ)
    → (h : Holds t text) → length text ≡ n
    → mask_in_place key size t ≡ (
        xor_loop key n 0 size (text ++ (0 ∷ h.junk)) >>= λ memory.
        some (record t { buffer = some memory }))
unfolding mask_in_place
mask_in_place_lem key size t text n h e =
    ap
      (λ (b : Option (List ℕ)). b >>= λ memory. xor_loop key t.endptr 0 size memory >>= λ memory'.
        some (record t { buffer = some memory' }))
      h.memory
    ∙ ap
        (λ (k : ℕ). xor_loop key k 0 size (text ++ (0 ∷ h.junk)) >>= λ memory.
          some (record t { buffer = some memory }))
        (h.ends ∙ e)

module _ (fresh : ℕ → List ℕ) (allocates : Allocates fresh) where
  -- With a mask, the loop runs on behind the payload for as many bytes as the header has: if the
  -- buffer ends before, it is accessed out of bounds; else the payload is masked, and the byte behind it, which
  -- was the terminator, becomes a byte of the key.
  pub build_in_place_masked :
      (opcode : ℕ) (key : Key) (t : Txt) (payload : List ℕ)
      → Holds t payload
      → 0 < length payload
      → length payload + 14 + 2048 < 2 ^ 32
      → let hdr = header_bytes opcode (length payload) true key in
        (t' : Txt) × (junk : List ℕ) × (insert fresh 0 hdr (length hdr) t ≡ some (length hdr, t'))
        × (t'.buffer ≡ some ((hdr ++ payload) ++ (0 ∷ junk)))
        × (length junk + 1 < length hdr → build_in_place fresh opcode true key t ≡ none)
        × (length hdr ≤ length junk + 1
            → (behind : List ℕ) × (build_in_place fresh opcode true key t
                ≡ some (
                  length hdr + length payload,
                  record t' {
                    buffer = some (
                        hdr
                        ++ (mask_from key 0 payload
                            ++ (bit_xor 0 (key (length payload % 4)) ∷ behind)));
                  },
                )))
  unfolding build_in_place build_sized
  build_in_place_masked opcode key t payload h some_bytes fits =
      let hdr = header_bytes opcode (length payload) true key in
      let n = length payload in
      let (at_least, at_most) = header_bytes_small opcode n true key in
      let (t', inserted, h') = header_inserted fresh allocates opcode true key t payload h fits in
      let size : length (hdr ++ payload) ≡ length hdr + n = length-append hdr payload in
      let masked : (true && ltb 0 n) ≡ true = ground arith in
      let looped =
        mask_in_place_lem key (length hdr) t' (hdr ++ payload) (length hdr + n) h' size in
      let start : build_in_place fresh opcode true key t
          ≡ (mask_in_place key (length hdr) t' >>= λ new. some (new.endptr, new)) =
        ap (λ (k : ℕ). build_sized fresh opcode true key k t) h.ends ∙ rw (masked, inserted) refl in
      (
        t',
        h'.junk,
        inserted,
        h'.memory,
        (λ short.
            start
            ∙ rw
                (
                  looped,
                  xor_loop_outside key (length hdr + n) 0 (length hdr)
                      ((hdr ++ payload) ++ (0 ∷ h'.junk))
                      (omega (arith, length-append (hdr ++ payload) (0 ∷ h'.junk), size))
                      (omega (arith, length-append (hdr ++ payload) (0 ∷ h'.junk), size)),
                )
                refl),
        (λ room.
            let (behind, masking) =
              xor_loop_beyond key hdr payload h'.junk (length hdr) refl (omega arith) room in
            let memory = hdr ++ (mask_from key 0 payload ++ (bit_xor 0 (key (n % 4)) ∷ behind)) in
            let done : (mask_in_place key (length hdr) t' >>= λ new. some (new.endptr, new))
                ≡ some (t'.endptr, record t' { buffer = some memory }) =
              rw (looped, masking) refl in
            (
              behind,
              start
                  ∙ done
                  ∙ ap (λ (k : ℕ). some (k, record t' { buffer = some memory })) (h'.ends ∙ size),
            )),
      )
