-- ===== src/Ir/PulseDistance.antt =====
-- The bit loops that ir/nec_transmitter.cpp and ir/samsung_transmitter.cpp share, and those of
-- their receivers: a mark of one base pulse, then a space of one or of three for each bit, lowest
-- bit first. Each file has its own copy over its own `BASE_PULSE`, the parameter here.
pub mod Decode
use picolibs.Base.{
  ℕ, zero, suc, ◌+◌, ◌*◌, ◌/◌, ◌%◌, ◌^◌, ◌≤◌, ◌<◌, ◌≡◌, refl, Option, some, List, [], ◌∷◌, ◌++◌,
  bit_and, bit_or, arith, ◌==◌, ltb, if◌then◌else◌, ◌>>=◌, u8, get_elem?, drop, length,
  length-append,
}
use picolibs.Bits.{low_bits, low_bits-lt, bit_and-one, bit_or-pow}
use picolibs.Ir.Pulse.{Close, Near, Near-drop}

module _ (base : ℕ) where
  -- `for (kk = 0; kk < 8; kk++)` of `setMessageTimes`, with the rounds left.
  unfoldable pub encode_bits : ℕ → ℕ → List ℕ
  encode_bits zero byte = []
  encode_bits (suc left) byte =
      base ∷ (if bit_and byte 1 == 0 then base else base * 3) ∷ encode_bits left (byte / 2)

  -- `for (jj = 0; jj < 4; jj++)`, over the bytes left.
  unfoldable pub encode_bytes : List ℕ → List ℕ
  unfolding encode_bits
  encode_bytes [] = []
  encode_bytes (byte ∷ bytes) = encode_bits 8 byte ++ encode_bytes bytes

  -- `for (kk = 0; kk < 8; kk++)` of `decode`, with the rounds left: the byte, and the next index.
  pub decode_bits : List ℕ → ℕ → ℕ → ℕ → ℕ → Option (ℕ × ℕ)
  decode_bits pulses zero ii mask byte = some (byte, ii)
  decode_bits pulses (suc left) ii mask byte = do
    pulse ← get_elem? pulses ii
    decode_bits pulses left (ii + 2) (u8 (mask * 2))
        (if ltb (2 * base) pulse then bit_or byte mask else byte)

  -- One round of `for (jj = 0; jj < 4; jj++)`.
  pub decode_byte : List ℕ → ℕ → Option (ℕ × ℕ)
  unfolding decode_bits
  decode_byte pulses ii = decode_bits pulses 8 ii 1 0

  length-encode_bits : (left byte : ℕ) → length (encode_bits left byte) ≡ 2 * left
  unfolding encode_bits
  length-encode_bits zero byte = omega arith
  length-encode_bits (suc left) byte = omega (arith, length-encode_bits left (byte / 2))

  pub length-encode_bytes : (bytes : List ℕ) → length (encode_bytes bytes) ≡ 16 * length bytes
  unfolding encode_bytes
  length-encode_bytes [] = omega arith
  length-encode_bytes (byte ∷ bytes) = omega (
    arith,
    length-append (encode_bits 8 byte) (encode_bytes bytes),
    length-encode_bits 8 byte,
    length-encode_bytes bytes,
  )
