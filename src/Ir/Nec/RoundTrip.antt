-- ===== src/Ir/Nec/RoundTrip.antt =====
-- What `NEC_Receiver::decode` makes of a train of pulses that follows `setMessageTimes`.
use picolibs.Base.{
  ℕ, ◌+◌, ◌-◌, ◌*◌, ◌/◌, ◌%◌, ◌<◌, ◌≡◌, ap, ◌∙◌, Bool, true, false, ◌&&◌, some, List, [], ◌∷◌, ◌++◌,
  arith, ltb, ◌==◌, if◌then◌else◌, drop,
}
use picolibs.Bits.{xor_ff_test}
use picolibs.Ir.Pulse.{Close, Near, Near-drop}
use picolibs.Ir.Message.{Decoded, responds}
use picolibs.Ir.Nec.{nec_base_pulse, nec_message_len}
use picolibs.Ir.Nec.Transmitter.{message_times, message_bytes, second_byte, message_bytes_lem}
use picolibs.Ir.Nec.Receiver.{
  decode, decode_from, decode_data, check_data, join_addr, is_repeat, is_pulse,
}
use picolibs.Ir.PulseDistance.{encode_bytes}
use picolibs.Ir.PulseDistance.Decode.{decode_byte-encode_bytes}

-- A two-byte address whose bytes are each other's complement looks like a one-byte address.
abbrev pub is_ambiguous : ℕ → Bool
is_ambiguous addr = ltb 255 addr && (addr / 256 + addr % 256 == 255)

-- The address that a receiver hears.
abbrev pub heard_addr : ℕ → ℕ
heard_addr addr = if is_ambiguous addr then addr % 256 else addr

abbrev heard : ℕ → ℕ → ℕ → Decoded
heard addr func address = record {
  accepted = responds (heard_addr addr) address;
  addr = heard_addr addr;
  func = func % 256;
}

join_addr-second_byte :
    (addr : ℕ) → addr < 65536 → join_addr (addr % 256) (second_byte addr) ≡ heard_addr addr
join_addr-second_byte addr h = ground (arith, xor_ff_test (addr % 256) (second_byte addr))

check_data-heard :
    (addr func address : ℕ)
    → addr < 65536
    → check_data (addr % 256) (second_byte addr) (func % 256) (255 - func % 256) address
      ≡ heard addr func address
unfolding check_data
check_data-heard addr func address h =
    rw (join_addr-second_byte addr h, xor_ff_test (func % 256) (255 - func % 256) (omega arith))
      (let full : func % 256 + (255 - func % 256) ≡ 255 = omega arith in rw full)

decode_data-heard :
    (addr func address : ℕ) (ps rest : List ℕ)
    → addr < 65536
    → Near 281 (drop 2 ps) (encode_bytes nec_base_pulse (message_bytes addr func) ++ rest)
    → decode_data ps 3 address ≡ some (heard addr func address)
unfolding decode_data
decode_data-heard addr func address ps rest h near =
    let near0 = rw (message_bytes_lem addr func) at near in
    let (e0, near1) =
      decode_byte-encode_bytes nec_base_pulse 281 (omega arith) (addr % 256) 2
        (second_byte addr ∷ func % 256 ∷ (255 - func % 256) ∷ []) ps rest (omega arith) near0 in
    let (e1, near2) =
      decode_byte-encode_bytes nec_base_pulse 281 (omega arith) (second_byte addr) 18
        (func % 256 ∷ (255 - func % 256) ∷ []) ps rest (ground arith) near1 in
    let (e2, near3) =
      decode_byte-encode_bytes nec_base_pulse 281 (omega arith) (func % 256) 34
        ((255 - func % 256) ∷ []) ps rest (omega arith) near2 in
    let (e3, _) =
      decode_byte-encode_bytes nec_base_pulse 281 (omega arith) (255 - func % 256) 50 [] ps rest
        (omega arith) near3 in
    rw (e0, e1, e2, e3, check_data-heard addr func address h)

is_pulse_sixteen : (p : ℕ) → Close 281 p (nec_base_pulse * 16) → is_pulse 16 p ≡ true
is_pulse_sixteen p h = ground arith

is_pulse_eight : (p : ℕ) → Close 281 p (nec_base_pulse * 8) → is_pulse 8 p ≡ true
is_pulse_eight p h = ground arith

is_pulse_not_four : (p : ℕ) → Close 281 p (nec_base_pulse * 8) → is_pulse 4 p ≡ false
is_pulse_not_four p h = ground arith

decode_heard :
    (addr func address : ℕ) (ps : List ℕ)
    → addr < 65536
    → Near 281 ps (message_times addr func)
    → decode ps 67 address ≡ some (heard addr func address)
unfolding decode decode_from is_repeat message_times
decode_heard addr func address ps h near =
    let (p0, e0, c0, near1) = Near-drop 281 ps 0 _ _ near in
    let (p1, e1, c1, near2) = Near-drop 281 ps 1 _ _ near1 in
    rw (
      e0,
      is_pulse_sixteen p0 c0,
      decode_from,
      e1,
      is_pulse_not_four p1 c1,
      is_pulse_eight p1 c1,
      decode_data-heard addr func address ps _ h near2,
    )

-- A pulse train that stays within 281 microseconds of the message for an address below 65536 is
-- decoded to that address and to the low byte of the function, unless the address has two bytes
-- that are each other's complement. It is accepted exactly by a receiver for that address or for
-- `0xffff`.
pub nec_decode-message_times :
    (addr func address : ℕ) (ps : List ℕ)
    → addr < 65536
    → is_ambiguous addr ≡ false
    → Near 281 ps (message_times addr func)
    → decode ps nec_message_len address
      ≡ some (record { accepted = responds addr address; addr = addr; func = func % 256 })
nec_decode-message_times addr func address ps h clear near =
    let same : heard_addr addr ≡ addr = rw clear in
    decode_heard addr func address ps h near
    ∙ ap (λ (a : ℕ). some (record { accepted = responds a address; addr = a; func = func % 256 }))
        same

-- A two-byte address whose bytes are each other's complement is heard as its low byte, so a
-- receiver that is set up for the address never accepts its own messages.
pub nec_ambiguous_refused :
    (addr func : ℕ) (ps : List ℕ)
    → addr < 65536
    → is_ambiguous addr ≡ true
    → Near 281 ps (message_times addr func)
    → decode ps nec_message_len addr
      ≡ some (record { accepted = false; addr = addr % 256; func = func % 256 })
nec_ambiguous_refused addr func ps h clash near =
    decode_heard addr func addr ps h near ∙ ground arith
