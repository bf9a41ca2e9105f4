-- ===== src/Ir/Sony/RoundTrip.antt =====
-- What `Sony_Receiver::decode` makes of a train of pulses that follows `setMessageTimes`.
use picolibs.Base.{
  ℕ, ◌+◌, ◌*◌, ◌≤◌, ◌≡◌, refl, true, false, some, List, append-nil, arith, ltb, sub32, u32,
}
use picolibs.Bits.{low_bits}
use picolibs.Ir.Pulse.{Close, Near, Near-drop}
use picolibs.Ir.Message.{responds}
use picolibs.Ir.Sony.{sony_base_pulse}
use picolibs.Ir.Sony.Transmitter.{message_times, encode_field}
use picolibs.Ir.Sony.Receiver.{is_pulse, decode, check_func, check_addr}
use picolibs.Ir.Sony.Field.{decode_field-Near}

is_pulse_four : (p : ℕ) → Close 300 p (sony_base_pulse * 4) → is_pulse 4 p ≡ true
is_pulse_four p h = ground arith

-- The count of a whole message passes the test of its length.
enough :
    (command_size address_size : ℕ)
    → command_size ≤ 16
    → address_size ≤ 16
    → ltb
        (sub32 ((address_size + command_size) * 2 + 1) 1)
        (sub32 (u32 (u32 (u32 (address_size + command_size) * 2) + 1)) 1)
      ≡ false
enough command_size address_size hc ha = ground arith

-- With fields of at most 16 bits each, a pulse train that stays within 300 microseconds of the
-- message is decoded to the bits of the address and of the function that the fields hold. It is
-- accepted exactly by a receiver for that address or for `0xffff`.
pub sony_decode-message_times :
    (command_size address_size addr func address : ℕ) (ps : List ℕ)
    → command_size ≤ 16
    → address_size ≤ 16
    → Near 300 ps (message_times command_size address_size addr func)
    → decode ps ((address_size + command_size) * 2 + 1) address address_size command_size
      ≡ some (record {
        accepted = responds (low_bits address_size addr) address;
        addr = low_bits address_size addr;
        func = low_bits command_size func;
      })
unfolding message_times decode check_func check_addr
sony_decode-message_times command_size address_size addr func address ps hc ha near =
    let (p, read, close, near1) = Near-drop 300 ps 0 _ _ near in
    let (e1, near2) =
      decode_field-Near command_size 0 command_size func 1 (1 + 2 * command_size) ps
        (encode_field address_size 1 addr) (omega arith) hc refl near1 in
    let near3 = rw (← append-nil (encode_field address_size 1 addr)) at near2 in
    let (e2, _) =
      decode_field-Near address_size 0 address_size addr (1 + 2 * command_size)
        (1 + 2 * command_size + 2 * address_size) ps _ (omega arith) ha refl near3 in
    rw (nonempty, read, is_pulse_four p close, enough command_size address_size hc ha, e1, e2)
  where
    nonempty : ltb ((address_size + command_size) * 2 + 1) 1 ≡ false
    nonempty = ground arith
