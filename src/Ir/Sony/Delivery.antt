-- ===== src/Ir/Sony/Delivery.antt =====
-- The receivers of ir/sony_receiver.{h,cpp} as protocols of the base class, and a transmitted message
-- on its way through one.
use picolibs.Base.{ℕ, ◌+◌, ◌*◌, ◌^◌, ◌<◌, ◌≤◌, ◌≡◌, ◌∙◌, true, List, arith, length, Returns, u16}
use picolibs.Bits.{low_bits}
use picolibs.Ir.Pulse.{Close, Near, Near-drop, length-Near}
use picolibs.Ir.Message.{responds}
use picolibs.Ir.Protocol.{Protocol, never_repeats}
use picolibs.Ir.Receiver.{Receiver, Grant, run}
use picolibs.Ir.Receiver.Collect.{edges, total, IsDelivered}
use picolibs.Ir.Receiver.Delivery.{IsIdle, deliver_train}
use picolibs.Ir.Sony.{sony_base_pulse}
use picolibs.Ir.Sony.Transmitter.{encode_field, message_times, length-message_times}
use picolibs.Ir.Sony.Receiver.{decode, is_pulse}
use picolibs.Ir.Sony.Bounds.{sony_decode_total}
use picolibs.Ir.Sony.RoundTrip.{sony_decode-message_times}

pub decode_message_total :
    (address_size address : ℕ) (pulses : List ℕ)
    → address_size ≤ 16
    → length pulses ≡ (address_size + 7) * 2 + 1
    → Returns (decode pulses ((address_size + 7) * 2 + 1) address address_size 7)
decode_message_total address_size address pulses h e =
    sony_decode_total pulses ((address_size + 7) * 2 + 1) address address_size 7 h (omega arith)
      (omega arith) (omega arith)

-- `check_sync` and `decode_message` for a receiver of the address, a `uint32_t` of which
-- `decode_message` passes on the low 16 bits, with 7 bits of a command. The subclasses have address sizes of 5 and 8.
unfoldable pub sony_protocol : (address_size address : ℕ) → address_size ≤ 16 → Protocol
sony_protocol address_size address h = record {
  is_mark = is_pulse 4;
  is_space = is_pulse 1;
  is_repeat = never_repeats;
  message_len = (address_size + 7) * 2 + 1;
  decode = λ pulses n_pulse. decode pulses n_pulse (u16 address) address_size 7;
  message_long = omega arith;
  message_small = omega arith;
  decode_total = λ pulses e. decode_message_total address_size (u16 address) pulses h e;
}

sync_mark : (p : ℕ) → Close 300 p (sony_base_pulse * 4) → is_pulse 4 p ≡ true
sync_mark p h = ground arith

sync_space : (p : ℕ) → Close 300 p sony_base_pulse → is_pulse 1 p ≡ true
sync_space p h = ground arith

-- From the edges of a transmitted message to the callback, with 7 bits of a command and an address of at
-- most 16 bits: an idle receiver that sees pulses within 300 microseconds of the message calls its
-- received callback, if it is set, with the bits of the address and of the function that the fields
-- hold if the low 16 bits of the address it listens to are that address or `0xffff`, which is all
-- of them, and its error callback, if it is set, otherwise. It calls nothing else, and is idle again.
pub sony_receive-message_times :
    (address_size addr func address ts : ℕ) (ps : List ℕ) (grant : Grant) (r : Receiver)
    (fit : address_size ≤ 16)
    → Near 300 ps (message_times 7 address_size addr func)
    → total ps < 2 ^ 32
    → ts + total ps < 2 ^ 64
    → IsIdle (sony_protocol address_size address fit) ts r
    → IsDelivered
        (record {
          accepted = responds (low_bits address_size addr) (u16 address);
          addr = low_bits address_size addr;
          func = low_bits 7 func;
        })
        (ts + total ps)
        r
        (run (sony_protocol address_size address fit) grant (edges ts true ps) r)
unfolding sony_protocol message_times encode_field
sony_receive-message_times address_size addr func address ts ps grant r fit near small fits idle =
    let (m, read_m, close_m, near1) = Near-drop 300 ps 0 _ _ near in
    let (s, read_s, close_s, _) = Near-drop 300 ps 1 _ _ near1 in
    deliver_train (sony_protocol address_size address fit) grant ts ps r _ small fits
      (length-Near 300 ps _ near ∙ length-message_times 7 address_size addr func) idle
      (λ q read. sync_mark q (ground (arith, close_m, read_m, read)))
      (λ q read. sync_space q (ground (arith, close_s, read_s, read)))
      (sony_decode-message_times 7 address_size addr func (u16 address) ps (omega arith) fit near)
