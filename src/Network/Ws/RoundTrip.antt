-- ===== src/Network/Ws/RoundTrip.antt =====
-- A packet that `BuildPacket` makes is taken apart by `ParsePacket`.
use picolibs.Base.{
  ℕ, ◌+◌, ◌-◌, ◌%◌, ◌^◌, ◌<◌, ◌≡◌, refl, sym, ap, ◌∙◌, Bool, true, ◌&&◌, some, List, [], ◌∷◌, ◌++◌,
  drop, drop-append_eq, append_assoc, append-nil, arith, ltb, length, length-append, Bool-cases,
  inl, inr,
}
use picolibs.Network.Ws.{
  Header, Key, success, xor_loop, short_len, extended_len, key_bytes, header_bytes, build_packet,
  parse_packet,
}
use picolibs.Network.Ws.Mask.{mask_from, xor_loop_lem}
use picolibs.Network.Ws.Front.{
  header_size, header_of, length-header_of, header_size_small, header_for, parse_packet-header_of,
  index_lem,
}
use picolibs.Network.Ws.Payload.{masked_by, mask_size, parse_payload_lem}

build_packet_lem :
    (opcode : ℕ) (payload : List ℕ) (mask : Bool) (key : Key)
    → let n = length payload in
      let masked = mask && ltb 0 n in
      build_packet opcode payload mask key
      ≡ some (header_of opcode n masked ++ (key_bytes masked key ++ masked_by masked key payload))
unfolding build_packet header_bytes header_of
build_packet_lem opcode payload mask key = elim (Bool-cases (mask && ltb 0 (length payload))) [
  | inl e ↦
      let n = length payload in
      let front = header_of opcode n true ++ key_bytes true key in
      rw (e, index_lem n)
        (ap (xor_loop key n 0 (header_size n + 4)) (sym (ap (◌++◌ front) (append-nil payload)))
          ∙ xor_loop_lem key payload front [] 0 (header_size n + 4) (
              omega (
                arith,
                length-append (header_of opcode n true) (key_bytes true key),
                length-header_of opcode n true,
              ))
          ∙ ap (λ (xs : List ℕ). some xs)
              (ap (◌++◌ front) (append-nil (mask_from key 0 payload))
                ∙ append_assoc (header_of opcode n true) (key_bytes true key)
                    (mask_from key 0 payload)))
  | inr e ↦ rw e (
      ap (λ (xs : List ℕ). some ((128 + opcode % 16) ∷ (short_len (length payload) + 0) ∷ xs))
        (append_assoc (extended_len (length payload)) [] payload))
]

-- The size of all that stands in front of the payload.
length_front :
    (opcode n : ℕ) (masked : Bool) (key : Key)
    → header_size n + mask_size masked ≡ length (header_of opcode n masked ++ key_bytes masked key)
length_front opcode n masked key = ground (
  arith,
  length-append (header_of opcode n masked) (key_bytes masked key),
  length-header_of opcode n masked,
)

-- A payload of at most 2 ^ 32 - 15 bytes, with or without a mask and whatever the mask is, makes a
-- packet that is taken apart again: the parser succeeds with the low four bits of the opcode, the
-- mask bit (which an empty payload does not have), the length, and the start of the payload, from
-- which on the unmasked packet holds the payload.
pub parse_packet-build_packet :
    (opcode : ℕ) (payload : List ℕ) (mask : Bool) (key : Key)
    → length payload < 2 ^ 32 - 14
    → (packet plain : List ℕ) × (header : Header) × (build_packet opcode payload mask key
        ≡ some packet)
      × (parse_packet packet ≡ success header plain)
      × (header.fin ≡ 1)
      × (header.opcode ≡ opcode % 16)
      × (header.masked ≡ (mask && ltb 0 (length payload)))
      × (header.length ≡ length payload)
      × (drop header.start plain ≡ payload)
parse_packet-build_packet opcode payload mask key fits =
    let n = length payload in
    let masked = mask && ltb 0 n in
    let pre = header_of opcode n masked in
    let body = key_bytes masked key ++ masked_by masked key payload in
    (
      pre ++ body,
      pre ++ (key_bytes masked key ++ payload),
      record (header_for opcode (short_len n) n masked) {
        start = header_size n + mask_size masked;
      },
      build_packet_lem opcode payload mask key,
      parse_packet-header_of opcode n masked body (omega arith)
          ∙ parse_payload_lem (header_for opcode (short_len n) n masked) pre payload key
              (header_size n) masked refl (sym (length-header_of opcode n masked)) refl
              (omega (arith, header_size_small n)),
      refl,
      refl,
      refl,
      refl,
      ap (drop (header_size n + mask_size masked))
            (sym (append_assoc pre (key_bytes masked key) payload))
          ∙ drop-append_eq _ (pre ++ key_bytes masked key) payload
              (length_front opcode n masked key),
    )
