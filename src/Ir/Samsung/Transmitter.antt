-- ===== src/Ir/Samsung/Transmitter.antt =====
-- `SAMSUNG_Transmitter::setMessageTimes` (ir/samsung_transmitter.cpp): the pulse times.
use picolibs.Base.{
  ℕ, ◌-◌, ◌*◌, ◌/◌, ◌%◌, ◌≡◌, List, [], ◌∷◌, ◌++◌, bit_and, bit_xor, arith, ltb, if◌then◌else◌,
  length, length-append,
}
use picolibs.Ir.Led.{Led, set_output_times}
use picolibs.Bits.{bit_and_byte, bit_xor_ff}
use picolibs.Ir.Samsung.{samsung_base_pulse, samsung_message_len}
use picolibs.Ir.PulseDistance.{encode_bytes, length-encode_bytes}

-- `data[0]` to `data[3]`: a small address is sent twice, the function with its complement.
unfoldable pub message_bytes : ℕ → ℕ → List ℕ
message_bytes addr func =
    bit_and addr 0xff
    ∷ (if ltb 255 addr then bit_and (addr / 256) 0xff else bit_and addr 0xff)
    ∷ bit_and func 0xff
    ∷ bit_xor (bit_and func 0xff) 0xff
    ∷ []

-- The array that `setMessageTimes` hands to `setOutputTimes`.
unfoldable pub message_times : ℕ → ℕ → List ℕ
message_times addr func =
    samsung_base_pulse * 8
    ∷ samsung_base_pulse * 8
    ∷ (encode_bytes samsung_base_pulse (message_bytes addr func) ++ samsung_base_pulse ∷ [])

-- The second address byte as a number.
abbrev pub second_byte : ℕ → ℕ
second_byte addr = if ltb 255 addr then addr / 256 % 256 else addr % 256

pub message_bytes_lem :
    (addr func : ℕ)
    → message_bytes addr func ≡ addr % 256 ∷ second_byte addr ∷ func % 256 ∷ (255 - func % 256) ∷ []
unfolding message_bytes
message_bytes_lem addr func = rw (
  bit_and_byte addr,
  bit_and_byte (addr / 256),
  bit_and_byte func,
  bit_xor_ff (func % 256) (omega arith),
)

pub length-message_times : (addr func : ℕ) → length (message_times addr func) ≡ samsung_message_len
unfolding message_times message_bytes
length-message_times addr func = omega (
  arith,
  length-append (encode_bytes samsung_base_pulse (message_bytes addr func))
      (samsung_base_pulse ∷ []),
  length-encode_bytes samsung_base_pulse (message_bytes addr func),
)

-- `setMessageTimes`: the times go to the base class.
unfoldable pub set_message_times : ℕ → ℕ → Led → Led
set_message_times addr func l =
    set_output_times (message_times addr func) (length (message_times addr func)) l
