-- ===== src/Network/Ws/Front.antt =====
-- The bytes in front of the mask: what `BuildPacket` writes, `ParsePacket` reads.
use picolibs.Base.{
  ℕ, ◌+◌, ◌*◌, ◌/◌, ◌%◌, ◌^◌, ◌≤◌, ◌<◌, ◌≡◌, ap, ◌∙◌, Bool, true, false, List, [], ◌∷◌, ◌++◌, arith,
  ltb, leb, ◌==◌, if◌then◌else◌, length, Bool-cases, inl, inr,
}
use picolibs.Network.Ws.{Header, short_len, extended_len, parse_packet, parse_payload, meta}

-- The size of the header without the mask.
unfoldable pub header_size : ℕ → ℕ
header_size n = if ltb n 126 then 2 else if ltb n 0x10000 then 4 else 10

unfoldable pub header_of : (opcode n : ℕ) (masked : Bool) → List ℕ
header_of opcode n masked =
    (128 + opcode % 16) ∷ (short_len n + (if masked then 128 else 0)) ∷ extended_len n

pub length-header_of :
    (opcode n : ℕ) (masked : Bool) → length (header_of opcode n masked) ≡ header_size n
unfolding header_of extended_len short_len header_size
length-header_of opcode n masked = ground arith

pub header_size_small : (n : ℕ) → header_size n ≤ 10
unfolding header_size
header_size_small n = ground arith

abbrev pub flag : Bool → ℕ
flag masked = if masked then 128 else 0

-- What the first bytes say.
abbrev pub header_for : (opcode payload_len n : ℕ) → Bool → Header
header_for opcode payload_len n masked = record {
  fin = 1;
  rsv = 0;
  opcode = opcode % 16;
  masked = masked;
  payload_len = payload_len;
  start = 0;
  length = n;
}

meta_lem :
    (opcode l : ℕ) (masked : Bool)
    → l < 128
    → meta (128 + opcode % 16) (l + flag masked) ≡ header_for opcode l l masked
meta_lem opcode l masked h = ground arith

parse_packet_short :
    (b0 b1 : ℕ) (xs : List ℕ)
    → b1 % 128 < 126
    → parse_packet (b0 ∷ b1 ∷ xs) ≡ parse_payload (meta b0 b1) 2 (b0 ∷ b1 ∷ xs)
unfolding parse_packet
parse_packet_short b0 b1 xs h =
    let long : ltb (length (b0 ∷ b1 ∷ xs)) 2 ≡ false = ground arith in
    let two : leb 2 (length (b0 ∷ b1 ∷ xs)) ≡ true = ground arith in
    let ne : (b1 % 128 == 126) ≡ false = ground arith in
    let ne' : (b1 % 128 == 127) ≡ false = ground arith in rw (long, two, ne, ne')

parse_packet_medium :
    (b0 b1 c0 c1 : ℕ) (xs : List ℕ)
    → b1 % 128 ≡ 126
    → parse_packet (b0 ∷ b1 ∷ c0 ∷ c1 ∷ xs)
      ≡ parse_payload (record (meta b0 b1) { length = c0 * 256 + c1 }) 4 (b0 ∷ b1 ∷ c0 ∷ c1 ∷ xs)
unfolding parse_packet
parse_packet_medium b0 b1 c0 c1 xs h =
    let long : ltb (length (b0 ∷ b1 ∷ c0 ∷ c1 ∷ xs)) 2 ≡ false = ground arith in
    let long' : ltb (length (b0 ∷ b1 ∷ c0 ∷ c1 ∷ xs)) 4 ≡ false = ground arith in
    let two : leb 2 (length (b0 ∷ b1 ∷ c0 ∷ c1 ∷ xs)) ≡ true = ground arith in
    let four : leb 4 (length (b0 ∷ b1 ∷ c0 ∷ c1 ∷ xs)) ≡ true = ground arith in
    let eq : (b1 % 128 == 126) ≡ true = ground arith in rw (long, two, eq, long', four)

parse_packet_long :
    (b0 b1 c0 c1 c2 c3 c4 c5 c6 c7 : ℕ) (xs : List ℕ)
    → b1 % 128 ≡ 127
    → parse_packet (b0 ∷ b1 ∷ c0 ∷ c1 ∷ c2 ∷ c3 ∷ c4 ∷ c5 ∷ c6 ∷ c7 ∷ xs)
      ≡ parse_payload
          (record (meta b0 b1) { length = c4 * 2 ^ 24 + c5 * 2 ^ 16 + c6 * 2 ^ 8 + c7 })
          10
          (b0 ∷ b1 ∷ c0 ∷ c1 ∷ c2 ∷ c3 ∷ c4 ∷ c5 ∷ c6 ∷ c7 ∷ xs)
unfolding parse_packet
parse_packet_long b0 b1 c0 c1 c2 c3 c4 c5 c6 c7 xs h =
    let packet = b0 ∷ b1 ∷ c0 ∷ c1 ∷ c2 ∷ c3 ∷ c4 ∷ c5 ∷ c6 ∷ c7 ∷ xs in
    let long : ltb (length packet) 2 ≡ false = ground arith in
    let long' : ltb (length packet) 10 ≡ false = ground arith in
    let ne : (b1 % 128 == 126) ≡ false = ground arith in
    let two : leb 2 (length packet) ≡ true = ground arith in
    let ten : leb 10 (length packet) ≡ true = ground arith in
    let eq : (b1 % 128 == 127) ≡ true = ground arith in rw (long, two, ne, eq, long', ten)

-- The two length fields and the size of a header, for the three ranges of the length.
short_shape : (n : ℕ) → n < 126 → (short_len n ≡ n) × (extended_len n ≡ []) × (header_size n ≡ 2)
unfolding short_len extended_len header_size
short_shape n h = ground arith

medium_shape :
    (n : ℕ)
    → 126 ≤ n
    → n < 65536
    → (short_len n ≡ 126) × (extended_len n ≡ n / 2 ^ 8 % 256 ∷ n % 256 ∷ []) × (header_size n ≡ 4)
unfolding short_len extended_len header_size
medium_shape n h h' = ground arith

long_shape :
    (n : ℕ)
    → 65536 ≤ n
    → (short_len n ≡ 127)
      × (extended_len n
          ≡ 0 ∷ 0 ∷ 0 ∷ 0 ∷ n / 2 ^ 24 % 256 ∷ n / 2 ^ 16 % 256 ∷ n / 2 ^ 8 % 256 ∷ n % 256 ∷ [])
      × (header_size n ≡ 10)
unfolding short_len extended_len header_size
long_shape n h = ground arith

parse_shape :
    (opcode n l s : ℕ) (masked : Bool) (ext xs : List ℕ)
    → (short_len n ≡ l) × (extended_len n ≡ ext) × (header_size n ≡ s)
    → parse_packet ((128 + opcode % 16) ∷ (l + flag masked) ∷ (ext ++ xs))
      ≡ parse_payload
          (header_for opcode l n masked)
          s
          ((128 + opcode % 16) ∷ (l + flag masked) ∷ (ext ++ xs))
    → parse_packet (header_of opcode n masked ++ xs)
      ≡ parse_payload
          (header_for opcode (short_len n) n masked)
          (header_size n)
          (header_of opcode n masked ++ xs)
unfolding header_of
parse_shape opcode n l s masked ext xs (e1, e2, e3) h = rw (e1, e2, e3) h

-- The header with a length field behind the second byte.
meta_extended :
    (opcode l n n' : ℕ) (masked : Bool)
    → l < 128
    → n' ≡ n
    → record (meta (128 + opcode % 16) (l + flag masked)) { length = n' }
      ≡ header_for opcode l n masked
meta_extended opcode l n n' masked h e =
    ap (λ (h : Header). record h { length = n' }) (meta_lem opcode l masked h)
    ∙ ap (λ (m : ℕ). header_for opcode l m masked) e

-- The header is read back, and what lies behind it is left.
pub parse_packet-header_of :
    (opcode n : ℕ) (masked : Bool) (xs : List ℕ)
    → n < 2 ^ 32
    → parse_packet (header_of opcode n masked ++ xs)
      ≡ parse_payload
          (header_for opcode (short_len n) n masked)
          (header_size n)
          (header_of opcode n masked ++ xs)
parse_packet-header_of opcode n masked xs h = elim (Bool-cases (ltb n 126)) [
  | inl small ↦
      let few : n < 126 = ground (arith, small) in
      parse_shape opcode n n 2 masked [] xs (short_shape n few) (
        parse_packet_short (128 + opcode % 16) (n + flag masked) xs (ground arith)
        ∙ ap (λ (h : Header). parse_payload h 2 ((128 + opcode % 16) ∷ (n + flag masked) ∷ xs))
            (meta_lem opcode n masked (omega arith)))
  | inr large ↦ elim (Bool-cases (ltb n 0x10000)) [
    | inl medium ↦
        parse_shape opcode n 126 4 masked _ xs
          (medium_shape n (ground (arith, large)) (ground (arith, medium)))
          (parse_packet_medium (128 + opcode % 16) (126 + flag masked) (n / 2 ^ 8 % 256) (n % 256)
              xs (ground arith)
            ∙ ap
                (λ (h : Header).
                  parse_payload h 4 (
                    (128 + opcode % 16) ∷ (126 + flag masked) ∷ (n / 2 ^ 8 % 256) ∷ (n % 256) ∷ xs))
                (meta_extended opcode 126 n _ masked (omega arith) (ground (arith, medium))))
    | inr huge ↦ parse_shape opcode n 127 10 masked _ xs (long_shape n (ground (arith, huge))) (
        parse_packet_long (128 + opcode % 16) (127 + flag masked) 0 0 0 0 (n / 2 ^ 24 % 256)
          (n / 2 ^ 16 % 256) (n / 2 ^ 8 % 256) (n % 256) xs (ground arith)
        ∙ ap
            (λ (h : Header). parse_payload h 10 (
              (128 + opcode % 16)
              ∷ (127 + flag masked)
              ∷ 0
              ∷ 0
              ∷ 0
              ∷ 0
              ∷ (n / 2 ^ 24 % 256)
              ∷ (n / 2 ^ 16 % 256)
              ∷ (n / 2 ^ 8 % 256)
              ∷ (n % 256)
              ∷ xs))
            (meta_extended opcode 127 n _ masked (omega arith) (omega arith)))
  ]
]

pub index_lem :
    (n : ℕ)
    → (if short_len n == 126 then 4 else if short_len n == 127 then 10 else 2) ≡ header_size n
unfolding short_len header_size
index_lem n = ground arith
