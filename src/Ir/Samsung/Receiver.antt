-- ===== src/Ir/Samsung/Receiver.antt =====
-- `SAMSUNG_Receiver::decode` (ir/samsung_receiver.cpp).
use picolibs.Base.{
  ℕ, ◌+◌, ◌*◌, ◌/◌, Bool, false, not, ◌||◌, Option, some, List, bit_xor, ltb, ◌==◌, if◌then◌else◌,
  ◌>>=◌, sub32, get_elem?,
}
use picolibs.Ir.Pulse.{compare_pulse}
use picolibs.Ir.Message.{Decoded, rejected, responds}
use picolibs.Ir.Samsung.{samsung_base_pulse}
use picolibs.Ir.PulseDistance.{decode_byte}

-- `compare_pulse(pulse, SAMSUNG_BASE_PULSE * times, SAMSUNG_BASE_PULSE / 2)`
abbrev pub is_pulse : ℕ → ℕ → Bool
is_pulse times pulse = compare_pulse pulse (samsung_base_pulse * times) (samsung_base_pulse / 2)

-- The address bytes: two that differ make a 16-bit address.
abbrev pub join_addr : ℕ → ℕ → ℕ
join_addr d0 d1 = if not (d0 == d1) then d0 + d1 * 256 else d0

-- What follows the bit loops.
unfoldable pub check_data : ℕ → ℕ → ℕ → ℕ → ℕ → Decoded
check_data d0 d1 d2 d3 address =
    let addr = join_addr d0 d1 in
    record {
      accepted = if bit_xor d2 d3 == 0xff then responds addr address else false;
      addr = addr;
      func = d2;
    }

-- The loops over four bytes from index `ii`, and what follows them.
unfoldable pub decode_data : List ℕ → ℕ → ℕ → Option Decoded
decode_data pulses ii address = do
  b0 ← decode_byte samsung_base_pulse pulses ii
  b1 ← decode_byte samsung_base_pulse pulses b0.1
  b2 ← decode_byte samsung_base_pulse pulses b1.1
  b3 ← decode_byte samsung_base_pulse pulses b2.1
  some (check_data b0.0 b1.0 b2.0 b3.0 address)

-- From the second test on: `ii` is 1 behind a sync mark and 0 without one.
unfoldable pub decode_from : List ℕ → ℕ → ℕ → ℕ → Option Decoded
decode_from pulses n_pulse address ii = do
  pulse ← get_elem? pulses ii
  let ii' = (if is_pulse 8 pulse then ii + 1 else ii) + 1
  if not (ii' == 3) || ltb (sub32 n_pulse ii') 64 then rejected else decode_data pulses ii' address

unfoldable pub decode : List ℕ → ℕ → ℕ → Option Decoded
decode pulses n_pulse address = if ltb n_pulse 3 then rejected else (do
  first ← get_elem? pulses 0
  decode_from pulses n_pulse address (if is_pulse 8 first then 1 else 0))
