-- ===== src/Ir/Sony/Field.antt =====
-- The receiver's loop over the bits of a value reads back what the transmitter's loop wrote.
use native.Mathlib.Nat.{pow-le-pow_right, one-le-pow, two-pow-succ}
use picolibs.Base.{
  ℕ, zero, suc, ◌+◌, ◌*◌, ◌^◌, ◌≤◌, ◌<◌, ◌≡◌, refl, sym, ◌∙◌, ◌⊎◌, inl, inr, true, false, some,
  List, ◌++◌, bit_and, bit_or, arith, ◌==◌, if◌then◌else◌, u16, drop,
}
use picolibs.Bits.{bit, bit-lt, low_bits, low_bits-lt, low_bits-suc, bit_and-pow, bit_or-pow}
use picolibs.Ir.Pulse.{Close, Near, Near-drop}
use picolibs.Ir.Sony.{sony_base_pulse}
use picolibs.Ir.Sony.Transmitter.{encode_field}
use picolibs.Ir.Sony.Receiver.{is_pulse, is_bad, decode_field, complete}

pow-lt-word : (j : ℕ) → j < 16 → 2 ^ j < 65536
pow-lt-word j h =
    omega (arith, pow-le-pow_right {n = 2} (omega arith) {i = j} {j = 15} (omega arith))

abbrev mark : ℕ → ℕ → ℕ
mark j value = if bit_and value (2 ^ j) == 0 then sony_base_pulse else sony_base_pulse * 2

-- Pulses that follow one bit are no error.
pulses_good :
    (j value p q : ℕ)
    → Close 300 p sony_base_pulse
    → Close 300 q (mark j value)
    → is_bad p q ≡ false
pulses_good j value p q cp cq = ground arith

-- The mark of a bit.
mark_of_value :
    (j value b : ℕ)
    → b < 2
    → bit_and value (2 ^ j) ≡ b * 2 ^ j
    → ((b ≡ 0) × (mark j value ≡ sony_base_pulse))
      ⊎ ((b ≡ 1) × (mark j value ≡ sony_base_pulse * 2))
mark_of_value j value zero h e = inl (refl, ground arith)
mark_of_value j value (suc zero) h e = inr (refl, ground (arith, one-le-pow j 2 (omega arith)))
mark_of_value j value (suc (suc b)) h e = absurd (omega arith)

mark_of_bit :
    (j value : ℕ)
    → ((bit value j ≡ 0) × (mark j value ≡ sony_base_pulse))
      ⊎ ((bit value j ≡ 1) × (mark j value ≡ sony_base_pulse * 2))
mark_of_bit j value = mark_of_value j value (bit value j) (bit-lt j value) (bit_and-pow j value)

is_pulse_one_mark : (q : ℕ) → Close 300 q sony_base_pulse → is_pulse 2 q ≡ false
is_pulse_one_mark q h = ground arith

is_pulse_two_marks : (q : ℕ) → Close 300 q (sony_base_pulse * 2) → is_pulse 2 q ≡ true
is_pulse_two_marks q h = ground arith

-- What a mark makes of the bits so far.
collect :
    (j value q : ℕ)
    → Close 300 q (mark j value)
    → (if is_pulse 2 q then bit_or (low_bits j value) (2 ^ j) else low_bits j value)
      ≡ low_bits (suc j) value
collect j value q c = elim (mark_of_bit j value) [
  | inl (e, m) ↦
      rw (is_pulse_one_mark q (rw m at c)) (sym (low_bits-suc j value ∙ rw e (omega arith)))
  | inr (e, m) ↦ rw (is_pulse_two_marks q (rw m at c)) (
      bit_or-pow j (low_bits j value) (low_bits-lt j value)
      ∙ sym (low_bits-suc j value ∙ rw e (omega arith)))
]

pub decode_field-Near :
    (left j size value m m' : ℕ) (ps rest : List ℕ)
    → j + left ≡ size
    → size ≤ 16
    → m' ≡ m + 2 * left
    → Near 300 (drop m ps) (encode_field left (u16 (2 ^ j)) value ++ rest)
    → (decode_field ps left m (u16 (2 ^ j)) (low_bits j value)
        ≡ some (complete (low_bits size value) m'))
      × Near 300 (drop m' ps) rest
unfolding decode_field encode_field
decode_field-Near zero j size value m m' ps rest e fits em near =
    let same : m' ≡ m = omega arith in
    let all : size ≡ j = omega arith in rw (same, all) (refl, near)
decode_field-Near (suc left) j size value m m' ps rest e fits em near =
    let mask : u16 (2 ^ j) ≡ 2 ^ j = omega (arith, pow-lt-word j (omega arith)) in
    let near0 = rw mask at near in
    let (p, read_p, close_p, near1) = Near-drop 300 ps m sony_base_pulse _ near0 in
    let (q, read_q, close_q, near2) = Near-drop 300 ps (suc m) (mark j value) _ near1 in
    let index : m + 1 ≡ suc m = omega arith in
    let next : m + 2 ≡ suc (suc m) = omega arith in
    let doubled : u16 (2 ^ j * 2) ≡ u16 (2 ^ suc j) = omega (arith, two-pow-succ j) in
    let (decoded, remains) =
      decode_field-Near left (suc j) size value (suc (suc m)) m' ps rest (omega arith) fits
        (omega arith) (rw doubled at near2) in
    (
      rw
          (
            mask,
            read_p,
            index,
            read_q,
            pulses_good j value p q close_p close_q,
            next,
            doubled,
            collect j value q close_q,
          )
          decoded,
      remains,
    )
