-- ===== src/Ir/Samsung/Delivery.antt =====
-- The receiver of ir/samsung_receiver.{h,cpp} as a protocol of the base class, and a transmitted
-- message on its way through it.
use picolibs.Base.{
  ℕ, ◌+◌, ◌*◌, ◌%◌, ◌^◌, ◌<◌, ◌≡◌, ◌∙◌, true, false, List, arith, length, Returns, u16,
}
use picolibs.Ir.Pulse.{Close, Near, Near-drop, length-Near}
use picolibs.Ir.Message.{responds}
use picolibs.Ir.Protocol.{Protocol, never_repeats}
use picolibs.Ir.Receiver.{Receiver, Grant, run}
use picolibs.Ir.Receiver.Collect.{edges, total, IsDelivered}
use picolibs.Ir.Receiver.Delivery.{IsIdle, deliver_train}
use picolibs.Ir.Samsung.{samsung_base_pulse, samsung_message_len}
use picolibs.Ir.Samsung.Transmitter.{message_times, length-message_times}
use picolibs.Ir.Samsung.Receiver.{decode, is_pulse}
use picolibs.Ir.Samsung.Bounds.{samsung_decode_total}
use picolibs.Ir.Samsung.RoundTrip.{is_ambiguous, samsung_decode-message_times}

pub decode_message_total :
    (address : ℕ) (pulses : List ℕ)
    → length pulses ≡ samsung_message_len
    → Returns (decode pulses samsung_message_len address)
decode_message_total address pulses e =
    samsung_decode_total pulses samsung_message_len address (omega arith) (omega arith)

-- `check_sync` and `decode_message` for a receiver of the address, a `uint32_t` of which
-- `decode_message` passes on the low 16 bits.
unfoldable pub samsung_protocol : ℕ → Protocol
samsung_protocol address = record {
  is_mark = is_pulse 8;
  is_space = is_pulse 8;
  is_repeat = never_repeats;
  message_len = samsung_message_len;
  decode = λ pulses n_pulse. decode pulses n_pulse (u16 address);
  message_long = omega arith;
  message_small = omega arith;
  decode_total = decode_message_total (u16 address);
}

sync_mark : (p : ℕ) → Close 281 p (samsung_base_pulse * 8) → is_pulse 8 p ≡ true
sync_mark p h = ground arith

sync_space : (p : ℕ) → Close 281 p (samsung_base_pulse * 8) → is_pulse 8 p ≡ true
sync_space p h = ground arith

-- From the edges of a transmitted message to the callback: an idle receiver that sees pulses within
-- 281 microseconds of the message for an address below 65536 that is not ambiguous calls its
-- received callback, if it is set, with that address and the low byte of the function if the low 16
-- bits of the address it listens to are that address or `0xffff`, which is all of them, and its
-- error callback, if it is set, otherwise. It calls nothing else, and is idle again.
pub samsung_receive-message_times :
    (addr func address ts : ℕ) (ps : List ℕ) (grant : Grant) (r : Receiver)
    → addr < 65536
    → is_ambiguous addr ≡ false
    → Near 281 ps (message_times addr func)
    → total ps < 2 ^ 32
    → ts + total ps < 2 ^ 64
    → IsIdle (samsung_protocol address) ts r
    → IsDelivered
        (record { accepted = responds addr (u16 address); addr = addr; func = func % 256 })
        (ts + total ps)
        r
        (run (samsung_protocol address) grant (edges ts true ps) r)
unfolding samsung_protocol message_times
samsung_receive-message_times addr func address ts ps grant r ha clear near small fits idle =
    let (m, read_m, close_m, near1) = Near-drop 281 ps 0 _ _ near in
    let (s, read_s, close_s, _) = Near-drop 281 ps 1 _ _ near1 in
    deliver_train (samsung_protocol address) grant ts ps r _ small fits
      (length-Near 281 ps (message_times addr func) near ∙ length-message_times addr func) idle
      (λ q read. sync_mark q (ground (arith, close_m, read_m, read)))
      (λ q read. sync_space q (ground (arith, close_s, read_s, read)))
      (samsung_decode-message_times addr func (u16 address) ps ha clear near)
