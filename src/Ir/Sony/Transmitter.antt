-- ===== src/Ir/Sony/Transmitter.antt =====
-- `Sony_Transmitter::setMessageTimes` (ir/sony_transmitter.cpp): the pulse times. The sizes are
-- those that the subclasses return from `command_size` and `address_size`.
use picolibs.Base.{
  ℕ, zero, suc, ◌+◌, ◌*◌, ◌≡◌, refl, List, [], ◌∷◌, ◌++◌, bit_and, arith, ◌==◌, if◌then◌else◌, u16,
  length, length-append,
}
use picolibs.Ir.Led.{Led, set_output_times}
use picolibs.Ir.Sony.{sony_base_pulse}

-- One loop over the bits of a value, with the rounds left and the mask.
unfoldable pub encode_field : ℕ → ℕ → ℕ → List ℕ
encode_field zero mask value = []
encode_field (suc left) mask value =
    sony_base_pulse
    ∷ (if bit_and value mask == 0 then sony_base_pulse else sony_base_pulse * 2)
    ∷ encode_field left (u16 (mask * 2)) value

-- The array that `setMessageTimes` hands to `setOutputTimes`.
unfoldable pub message_times : ℕ → ℕ → ℕ → ℕ → List ℕ
message_times command_size address_size addr func =
    sony_base_pulse * 4 ∷ (encode_field command_size 1 func ++ encode_field address_size 1 addr)

length-encode_field : (left mask value : ℕ) → length (encode_field left mask value) ≡ 2 * left
unfolding encode_field
length-encode_field zero mask value = refl
length-encode_field (suc left) mask value =
    omega (arith, length-encode_field left (u16 (mask * 2)) value)

pub length-message_times :
    (command_size address_size addr func : ℕ)
    → length (message_times command_size address_size addr func)
      ≡ (address_size + command_size) * 2 + 1
unfolding message_times
length-message_times command_size address_size addr func = omega (
  arith,
  length-append (encode_field command_size 1 func) (encode_field address_size 1 addr),
  length-encode_field command_size 1 func,
  length-encode_field address_size 1 addr,
)

-- `setMessageTimes`: the times go to the base class.
unfoldable pub set_message_times : ℕ → ℕ → ℕ → ℕ → Led → Led
set_message_times command_size address_size addr func l =
    let times = message_times command_size address_size addr func in
    set_output_times times (length times) l
