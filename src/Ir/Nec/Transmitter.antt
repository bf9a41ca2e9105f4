-- ===== src/Ir/Nec/Transmitter.antt =====
-- `NEC_Transmitter::setMessageTimes` and `repeat` (ir/nec_transmitter.cpp): the pulse times.
use picolibs.Base.{
  ℕ, ◌-◌, ◌*◌, ◌/◌, ◌%◌, ◌≡◌, Bool, List, [], ◌∷◌, ◌++◌, bit_and, bit_xor, arith, ltb,
  if◌then◌else◌, length, length-append,
}
use picolibs.Ir.Led.{Led, set_output_times, repeat}
use picolibs.Alarm.{AlarmId}
use picolibs.Bits.{bit_and_byte, bit_xor_ff}
use picolibs.Ir.Nec.{nec_base_pulse, nec_message_len}
use picolibs.Ir.PulseDistance.{encode_bytes, length-encode_bytes}

-- `data[0]` to `data[3]`. An address above 255 takes both address bytes; a smaller one is followed
-- by its complement, as the function always is.
unfoldable pub message_bytes : ℕ → ℕ → List ℕ
message_bytes addr func =
    bit_and addr 0xff
    ∷ (if ltb 255 addr then bit_and (addr / 256) 0xff else bit_xor (bit_and addr 0xff) 0xff)
    ∷ bit_and func 0xff
    ∷ bit_xor (bit_and func 0xff) 0xff
    ∷ []

-- The array that `setMessageTimes` hands to `setOutputTimes`.
unfoldable pub message_times : ℕ → ℕ → List ℕ
message_times addr func =
    nec_base_pulse * 16
    ∷ nec_base_pulse * 8
    ∷ (encode_bytes nec_base_pulse (message_bytes addr func) ++ nec_base_pulse ∷ [])

-- The array of `repeat`.
pub repeat_times : List ℕ
repeat_times = nec_base_pulse * 16 ∷ nec_base_pulse * 4 ∷ nec_base_pulse ∷ []

-- The second address byte as a number.
abbrev pub second_byte : ℕ → ℕ
second_byte addr = if ltb 255 addr then addr / 256 % 256 else 255 - addr % 256

pub message_bytes_lem :
    (addr func : ℕ)
    → message_bytes addr func ≡ addr % 256 ∷ second_byte addr ∷ func % 256 ∷ (255 - func % 256) ∷ []
unfolding message_bytes
message_bytes_lem addr func = rw (
  bit_and_byte addr,
  bit_and_byte (addr / 256),
  bit_and_byte func,
  bit_xor_ff (addr % 256) (omega arith),
  bit_xor_ff (func % 256) (omega arith),
)

pub length-message_times : (addr func : ℕ) → length (message_times addr func) ≡ nec_message_len
unfolding message_times message_bytes
length-message_times addr func = omega (
  arith,
  length-append (encode_bytes nec_base_pulse (message_bytes addr func)) (nec_base_pulse ∷ []),
  length-encode_bytes nec_base_pulse (message_bytes addr func),
)

-- `setMessageTimes`: the times go to the base class.
unfoldable pub set_message_times : ℕ → ℕ → Led → Led
set_message_times addr func l =
    set_output_times (message_times addr func) (length (message_times addr func)) l

-- `repeat`: the repeat code is loaded and sent once.
unfoldable pub send_repeat : (ℕ → AlarmId) → Led → Bool × Led
unfolding repeat_times
send_repeat alarm l = repeat alarm (set_output_times repeat_times 3 l)
