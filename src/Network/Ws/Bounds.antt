-- ===== src/Network/Ws/Bounds.antt =====
-- Where `ParsePacket` finds the payload, and what the 32-bit sum of its test lets pass.
use picolibs.Base.{
  ℕ, zero, suc, ◌+◌, ◌-◌, ◌*◌, ◌%◌, ◌^◌, ◌≤◌, ◌<◌, ◌≡◌, refl, ◌∙◌, false, some, List, ◌++◌, arith,
  ltb, leb, ◌==◌, u32, set, length, length-append, length-set, get_elem?-lt, Bool-cases, inl, inr,
  true, bit_xor,
}
use picolibs.Network.Ws.{
  Header, Key, Parsed, success, fail, fault, xor_loop, short_len, parse_packet, parse_payload,
  read_key, byte_at, meta,
}
use picolibs.Network.Ws.Front.{
  header_of, header_for, header_size, parse_packet-header_of, length-header_of,
}

-- The loop ends if all of its rounds lie inside the packet.
xor_loop_total :
    (key : Key) (left i index : ℕ) (packet : List ℕ)
    → index + i + left ≤ length packet
    → (out : List ℕ) × (xor_loop key left i index packet ≡ some out) × (length out ≡ length packet)
unfolding xor_loop
xor_loop_total key zero i index packet h = (packet, refl, refl)
xor_loop_total key (suc left) i index packet h =
    let (byte, read) = get_elem?-lt packet (index + i) (omega arith) in
    let next = set packet (index + i) (bit_xor byte (key (i % 4))) in
    let same = length-set packet (index + i) (bit_xor byte (key (i % 4))) in
    let (out, looped, size) = xor_loop_total key left (i + 1) index next (omega (arith, same)) in
    (out, rw (read, looped), size ∙ same)

-- A packet is taken with the payload inside of it, or refused.
abbrev pub IsWithin : List ℕ → Parsed → Type 0
IsWithin packet fail = Unit
IsWithin packet fault = ⊥
IsWithin packet (success header plain) =
    (header.start + header.length ≤ length packet) × (length plain ≡ length packet)

parse_payload-IsWithin :
    (h : Header) (index : ℕ) (packet : List ℕ)
    → index ≤ 10
    → h.length < 2 ^ 32 - 14
    → IsWithin packet (parse_payload h index packet)
unfolding parse_payload
parse_payload-IsWithin h index packet small fits = elim (Bool-cases h.masked) [
  | inl m ↦ elim (Bool-cases (ltb (length packet) (index + 4))) [
    | inl short ↦ rw (m, short) tt
    | inr long ↦
        let inside : leb (index + 4) (length packet) ≡ true = ground (arith, long) in
        elim (Bool-cases (ltb (length packet) (u32 (index + 4 + h.length)))) [
          | inl short ↦ rw (m, long, inside, short) tt
          | inr enough ↦
              let room : index + 4 + h.length ≤ length packet = ground (arith, enough) in
              let (out, looped, size) =
                xor_loop_total (read_key packet index) h.length 0 (index + 4) packet
                  (omega arith) in
              rw (m, long, inside, enough, looped) (room, size)
        ]
  ]
  | inr m ↦ elim (Bool-cases (ltb (length packet) (u32 (index + h.length)))) [
    | inl short ↦ rw (m, short) tt
    | inr enough ↦ rw (m, enough) (ground (arith, enough), refl)
  ]
]

-- Without a mask, a length field of 2 ^ 32 - 10 or more makes the sum of the last test wrap: the
-- packet is taken although its payload ends behind the packet.
pub parse_packet_overflow :
    (opcode n : ℕ) (xs : List ℕ)
    → 2 ^ 32 - 10 ≤ n
    → n < 2 ^ 32
    → length xs < n
    → (header : Header) × (parse_packet (header_of opcode n false ++ xs)
        ≡ success header (header_of opcode n false ++ xs))
      × (length (header_of opcode n false ++ xs) < header.start + header.length)
unfolding parse_payload header_size
parse_packet_overflow opcode n xs large small short =
    let whole = header_of opcode n false ++ xs in
    let size : length whole ≡ 10 + length xs =
      ground
        (arith, length-append (header_of opcode n false) xs, length-header_of opcode n false) in
    let ten : header_size n ≡ 10 = ground arith in
    let wraps : ltb (length whole) (u32 (10 + n)) ≡ false = ground (arith, size) in
    (
      record (header_for opcode (short_len n) n false) { start = 10 },
      parse_packet-header_of opcode n false xs small ∙ rw (ten, wraps) refl,
      omega (arith, size),
    )

-- A packet of bytes, whatever they are, is refused, or taken with its payload inside of it and its
-- size unchanged, and never is a byte behind its end read or written, if the number in bytes 6 to 9, which is the length
-- of the longest form, is below 2 ^ 32 - 14.
pub parse_packet-IsWithin :
    (packet : List ℕ)
    → ((i : ℕ) → byte_at packet i < 256)
    → byte_at packet 6 * 2 ^ 24
        + byte_at packet 7 * 2 ^ 16
        + byte_at packet 8 * 2 ^ 8
        + byte_at packet 9
      < 2 ^ 32 - 14
    → IsWithin packet (parse_packet packet)
unfolding parse_packet
parse_packet-IsWithin packet bytes fits =
    let h = meta (byte_at packet 0) (byte_at packet 1) in
    elim (Bool-cases (ltb (length packet) 2)) [
      | inl short ↦ rw short tt
      | inr enough ↦
          let two : leb 2 (length packet) ≡ true = ground (arith, enough) in
          elim (Bool-cases (h.payload_len == 126)) [
            | inl medium ↦ elim (Bool-cases (ltb (length packet) 4)) [
              | inl short ↦ rw (enough, two, medium, short) tt
              | inr there ↦
                  let four : leb 4 (length packet) ≡ true = ground (arith, there) in
                  rw (enough, two, medium, there, four)
                    (parse_payload-IsWithin
                      (record h { length = byte_at packet 2 * 256 + byte_at packet 3 }) 4 packet
                      (omega arith) (omega (arith, bytes 2, bytes 3)))
            ]
            | inr small ↦ elim (Bool-cases (h.payload_len == 127)) [
              | inl long ↦ elim (Bool-cases (ltb (length packet) 10)) [
                | inl short ↦ rw (enough, two, small, long, short) tt
                | inr there ↦
                    let ten : leb 10 (length packet) ≡ true = ground (arith, there) in
                    rw (enough, two, small, long, there, ten)
                      (parse_payload-IsWithin
                        (record h {
                          length =
                              byte_at packet 6 * 2 ^ 24
                              + byte_at packet 7 * 2 ^ 16
                              + byte_at packet 8 * 2 ^ 8
                              + byte_at packet 9;
                        })
                        10 packet (omega arith) fits)
              ]
              | inr tiny ↦
                  rw (enough, two, small, tiny)
                    (parse_payload-IsWithin h 2 packet (omega arith) (omega arith))
            ]
          ]
    ]
