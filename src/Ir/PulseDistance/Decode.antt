-- ===== src/Ir/PulseDistance/Decode.antt =====
-- The receivers' bit loop reads back what the transmitters' loop wrote, from any train of pulses
-- that follows it closely enough.
use native.Mathlib.Nat.{two-pow-succ, pow-le-pow_right}
use picolibs.Base.{
  ℕ, zero, suc, ◌+◌, ◌*◌, ◌/◌, ◌%◌, ◌^◌, ◌≤◌, ◌<◌, ◌≡◌, refl, ap, ◌∙◌, some, List, ◌∷◌, ◌++◌,
  append_assoc, bit_and, bit_or, arith, ◌==◌, ltb, if◌then◌else◌, u8, drop, length, get_elem?-lt,
}
use picolibs.Bits.{low_bits, low_bits-eq, bit_and-one, bit_or-pow}
use picolibs.Ir.Pulse.{Close, Near, Near-drop}
use picolibs.Ir.PulseDistance.{encode_bits, encode_bytes, decode_bits, decode_byte}

pow-lt-byte : (j : ℕ) → j < 8 → 2 ^ j < 256
pow-lt-byte j h =
    omega (arith, pow-le-pow_right {n = 2} (omega arith) {i = j} {j = 7} (omega arith))

double_mask : (j : ℕ) → u8 (u8 (2 ^ j) * 2) ≡ u8 (2 ^ suc j)
double_mask j = omega (arith, two-pow-succ j)

module _ (base band : ℕ) (fits : band ≤ base) where
  abbrev space : ℕ → ℕ
  space byte = if bit_and byte 1 == 0 then base else base * 3

  -- What one pulse makes of the byte so far.
  collect :
      (j byte acc p : ℕ)
      → acc < 2 ^ j
      → Close band p (space byte)
      → (if ltb (2 * base) p then bit_or acc (2 ^ j) else acc) ≡ acc + byte % 2 * 2 ^ j
  collect j byte acc p h c = ground (arith, bit_and-one byte, bit_or-pow j acc)

  bound : (j byte acc : ℕ) → acc < 2 ^ j → acc + byte % 2 * 2 ^ j < 2 ^ suc j
  bound j byte acc h = grind (arith, two-pow-succ j)

  weight :
      (left j byte acc : ℕ)
      → acc + byte % 2 * 2 ^ j + low_bits left (byte / 2) * 2 ^ suc j
        ≡ acc + (byte % 2 + 2 * low_bits left (byte / 2)) * 2 ^ j
  weight left j byte acc =
      omega (arith, ap (λ (t : ℕ). low_bits left (byte / 2) * t) (two-pow-succ j))

  pub decode_bits-Near :
      (left j byte acc m m' i i' : ℕ) (ps rest : List ℕ)
      → j + left ≡ 8
      → acc < 2 ^ j
      → m' ≡ m + 2 * left
      → i ≡ suc m
      → i' ≡ suc m'
      → Near band (drop m ps) (encode_bits base left byte ++ rest)
      → (decode_bits base ps left i (u8 (2 ^ j)) acc ≡ some (acc + low_bits left byte * 2 ^ j, i'))
        × Near band (drop m' ps) rest
  unfolding decode_bits encode_bits
  decode_bits-Near zero j byte acc m m' i i' ps rest e h em ei ei' near =
      let same : m' ≡ m = omega arith in rw same (ground (arith, same), near)
  decode_bits-Near (suc left) j byte acc m m' i i' ps rest e h em ei ei' near =
      let (_, _, _, behind_mark) = Near-drop band ps m base _ near in
      let (p, read, close, behind) = Near-drop band ps (suc m) (space byte) _ behind_mark in
      let (decoded, remains) =
        decode_bits-Near left (suc j) (byte / 2) (acc + byte % 2 * 2 ^ j) (suc (suc m)) m'
          (suc (suc (suc m))) i' ps rest (omega arith) (bound j byte acc h) (omega arith) refl ei'
          behind in
      let index : suc m + 2 ≡ suc (suc (suc m)) = omega arith in
      let mask : u8 (2 ^ j) ≡ 2 ^ j = omega (arith, pow-lt-byte j (omega arith)) in
      (
        rw (ei, read, index, double_mask j, mask, collect j byte acc p h close)
            (decoded ∙ ap (λ (v : ℕ). some (v, i')) (weight left j byte acc)),
        remains,
      )

  -- A byte below 256 is read back, and the train behind it still follows the rest.
  pub decode_byte-Near :
      (byte m : ℕ) (ps rest : List ℕ)
      → byte < 256
      → Near band (drop m ps) (encode_bits base 8 byte ++ rest)
      → (decode_byte base ps (m + 1) ≡ some (byte, m + 17)) × Near band (drop (m + 16) ps) rest
  unfolding decode_byte
  decode_byte-Near byte m ps rest h near =
      let (decoded, remains) =
        decode_bits-Near 8 0 byte 0 m (m + 16) (m + 1) (m + 17) ps rest (omega arith) (omega arith)
          (omega arith) (omega arith) (omega arith) near in
      (decoded ∙ ap (λ (v : ℕ). some (v, m + 17)) (omega (arith, low_bits-eq 8 byte h)), remains)

  -- The first of several bytes.
  pub decode_byte-encode_bytes :
      (byte m : ℕ) (bytes ps rest : List ℕ)
      → byte < 256
      → Near band (drop m ps) (encode_bytes base (byte ∷ bytes) ++ rest)
      → (decode_byte base ps (m + 1) ≡ some (byte, m + 17))
        × Near band (drop (m + 16) ps) (encode_bytes base bytes ++ rest)
  unfolding encode_bytes
  decode_byte-encode_bytes byte m bytes ps rest h near =
      decode_byte-Near byte m ps (encode_bytes base bytes ++ rest) h
        (rw (append_assoc (encode_bits base 8 byte) (encode_bytes base bytes) rest) at near)

-- The loop reads nothing outside an array that holds its last space.
pub decode_bits_total :
    (base left i mask byte : ℕ) (ps : List ℕ)
    → i + 2 * left ≤ length ps + 1
    → (b : ℕ) × (decode_bits base ps left i mask byte ≡ some (b, i + 2 * left))
unfolding decode_bits
decode_bits_total base zero i mask byte ps h = (byte, ground arith)
decode_bits_total base (suc left) i mask byte ps h =
    let (p, read) = get_elem?-lt ps i (omega arith) in
    let (b, rest) =
      decode_bits_total base left (i + 2) (u8 (mask * 2))
        (if ltb (2 * base) p then bit_or byte mask else byte) ps (omega arith) in
    let index : i + 2 + 2 * left ≡ i + 2 * suc left = omega arith in
    (b, rw read (rest ∙ ap (λ (t : ℕ). some (b, t)) index))

pub decode_byte_total :
    (base i : ℕ) (ps : List ℕ)
    → i + 15 ≤ length ps
    → (b : ℕ) × (decode_byte base ps i ≡ some (b, i + 16))
unfolding decode_byte
decode_byte_total base i ps h = decode_bits_total base 8 i 1 0 ps (omega arith)
