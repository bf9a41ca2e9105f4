-- ===== src/Ir/Sony/Receiver.antt =====
-- `Sony_Receiver::decode` (ir/sony_receiver.cpp).
use picolibs.Base.{
  ℕ, zero, suc, ◌+◌, ◌*◌, ◌/◌, Bool, false, not, ◌&&◌, ◌||◌, Option, some, List, bit_or, ltb, ◌==◌,
  if◌then◌else◌, ◌>>=◌, u16, u32, sub32, get_elem?,
}
use picolibs.Ir.Pulse.{compare_pulse}
use picolibs.Ir.Message.{Decoded, rejected, responds}
use picolibs.Ir.Sony.{sony_base_pulse}

-- `compare_pulse(pulse, SONY_BASE_PULSE * times, SONY_BASE_PULSE / 2)`
abbrev pub is_pulse : ℕ → ℕ → Bool
is_pulse times pulse = compare_pulse pulse (sony_base_pulse * times) (sony_base_pulse / 2)

-- The end of a loop over the bits of a value: all bits, with the next index, or a `return false`
-- with the bits so far.
pub data Field : Type 0 where
  complete : ℕ → ℕ → Field
  wrong : ℕ → Field

-- A space that is no base pulse, or a mark that is neither one nor two.
abbrev pub is_bad : ℕ → ℕ → Bool
is_bad space mark = not (is_pulse 1 space) || (not (is_pulse 2 mark) && not (is_pulse 1 mark))

-- One loop over the bits of a value, with the rounds left.
unfoldable pub decode_field : List ℕ → ℕ → ℕ → ℕ → ℕ → Option Field
decode_field pulses zero ii mask value = some (complete value ii)
decode_field pulses (suc left) ii mask value = do
  space ← get_elem? pulses ii
  mark ← get_elem? pulses (ii + 1)
  let rest =
        decode_field pulses left (ii + 2) (u16 (mask * 2))
          (if is_pulse 2 mark then bit_or value mask else value) in
      if is_bad space mark then some (wrong value) else rest

-- What follows the loop over the address.
unfoldable pub check_addr : ℕ → ℕ → Field → Decoded
check_addr func address (complete addr ii) = record {
  accepted = responds addr address;
  addr = addr;
  func = func;
}
check_addr func address (wrong addr) = record { accepted = false; addr = addr; func = func }

-- What follows the loop over the value.
unfoldable pub check_func : List ℕ → ℕ → ℕ → Field → Option Decoded
check_func pulses address addr_size (complete func ii) = do
  field ← decode_field pulses addr_size ii 1 0
  some (check_addr func address field)
check_func pulses address addr_size (wrong func) =
    some (record { accepted = false; addr = 0; func = func })

unfoldable pub decode : List ℕ → ℕ → ℕ → ℕ → ℕ → Option Decoded
decode pulses n_pulse address addr_size value_size = if ltb n_pulse 1 then rejected else (do
  first ← get_elem? pulses 0
  let ii = if is_pulse 4 first then 1 else 0
  if not (ii == 1)
        || ltb (sub32 n_pulse ii) (sub32 (u32 (u32 (u32 (addr_size + value_size) * 2) + 1)) 1)
      then rejected
      else (do
        field ← decode_field pulses value_size ii 1 0
        check_func pulses address addr_size field))
