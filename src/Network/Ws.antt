-- ===== src/Network/Ws.antt =====
-- `WS` (network/ws.{h,cpp}): web socket packets over `std::string`, as lists of bytes.
pub mod Mask
pub mod Front
pub mod Payload
pub mod RoundTrip
pub mod Bounds
pub mod InPlace
use picolibs.Base.{
  ℕ, zero, suc, ◌+◌, ◌*◌, ◌/◌, ◌%◌, ◌^◌, Bool, true, false, ◌&&◌, Option, none, some, List, [], ◌∷◌,
  ◌++◌, bit_xor, ltb, leb, ◌==◌, if◌then◌else◌, ◌>>=◌, u32, get_elem?, set, length,
}

-- `WebsocketPacketHeader_t`: the fields of the bit field `meta`, and the others.
pub record Header : Type 0 where
  pub fin : ℕ
  pub rsv : ℕ
  pub opcode : ℕ
  pub masked : Bool
  pub payload_len : ℕ
  pub start : ℕ
  pub length : ℕ

-- `header.mask.maskBytes`
abbrev pub Key : Type 0
Key = ℕ → ℕ

-- The loop over the payload, with the rounds left. `none` is an access outside the string.
unfoldable pub xor_loop : Key → ℕ → ℕ → ℕ → List ℕ → Option (List ℕ)
xor_loop key zero i index packet = some packet
xor_loop key (suc left) i index packet = do
  byte ← get_elem? packet (index + i)
  xor_loop key left (i + 1) index (set packet (index + i) (bit_xor byte (key (i % 4))))

-- The length field of the second byte.
unfoldable pub short_len : ℕ → ℕ
short_len n = if ltb n 126 then n else if ltb n 0x10000 then 126 else 127

-- The extended length.
unfoldable pub extended_len : ℕ → List ℕ
extended_len n =
    if short_len n == 126
    then n / 2 ^ 8 % 256 ∷ n % 256 ∷ []
    else if short_len n == 127
    then 0 ∷ 0 ∷ 0 ∷ 0 ∷ n / 2 ^ 24 % 256 ∷ n / 2 ^ 16 % 256 ∷ n / 2 ^ 8 % 256 ∷ n % 256 ∷ []
    else []

abbrev pub key_bytes : Bool → Key → List ℕ
key_bytes masked key = if masked then key 0 ∷ key 1 ∷ key 2 ∷ key 3 ∷ [] else []

-- Everything in front of the payload.
unfoldable pub header_bytes : ℕ → ℕ → Bool → Key → List ℕ
header_bytes opcode n masked key =
    (128 + opcode % 16)
    ∷ (short_len n + (if masked then 128 else 0))
    ∷ (extended_len n ++ key_bytes masked key)

-- `BuildPacket` over a string. `key` holds the bytes of `rand()`. The index of the payload is that
-- which the source counts up with the parts of the header.
unfoldable pub build_packet : ℕ → List ℕ → Bool → Key → Option (List ℕ)
build_packet opcode payload mask key =
    let n = length payload in
    let masked = mask && ltb 0 n in
    let index =
      (if short_len n == 126 then 4 else if short_len n == 127 then 10 else 2)
      + (if masked then 4 else 0) in
    let msg = header_bytes opcode n masked key ++ payload in
    if masked then xor_loop key n 0 index msg else some msg

-- `WEBSOCKET_FAIL`, `WEBSOCKET_SUCCESS` with the header and the unmasked packet, or an access
-- outside the packet.
pub data Parsed : Type 0 where
  fail : Parsed
  success : Header → List ℕ → Parsed
  fault : Parsed

-- A read of the bytes in front of an index: a fault, if the packet has not that many.
abbrev pub reading : ℕ → List ℕ → Parsed → Parsed
reading n packet result = if leb n (length packet) then result else fault

-- The byte at an index; outside the packet it is 0, but there `reading` has made the result a fault.
abbrev pub byte_at : List ℕ → ℕ → ℕ
byte_at packet i = elim (get_elem? packet i) [ none ↦ 0 | some byte ↦ byte ]

-- The mask that the packet holds from an index on.
abbrev pub read_key : List ℕ → ℕ → Key
read_key packet index i = byte_at packet (index + i)

abbrev pub unmasked : Option (List ℕ) → Header → Parsed
unmasked none header = fault
unmasked (some packet) header = success header packet

-- From the test of the mask on: the length is known, and `index` is behind it. Sums with
-- `header->length` wrap in `uint32_t`.
unfoldable pub parse_payload : Header → ℕ → List ℕ → Parsed
parse_payload header index packet =
    if header.masked
    then if ltb (length packet) (index + 4)
      then fail
      else reading (index + 4) packet (
          if ltb (length packet) (u32 (index + 4 + header.length))
          then fail
          else unmasked (xor_loop (read_key packet index) header.length 0 (index + 4) packet)
              (record header { start = index + 4 }))
    else if ltb (length packet) (u32 (index + header.length))
    then fail
    else success (record header { start = index }) packet

-- The two bytes of `meta`.
abbrev pub meta : ℕ → ℕ → Header
meta byte0 byte1 = record {
  fin = byte0 / 128;
  rsv = byte0 / 16 % 8;
  opcode = byte0 % 16;
  masked = byte1 / 128 == 1;
  payload_len = byte1 % 128;
  start = 0;
  length = byte1 % 128;
}

-- `ParsePacket`. `reading` stands where bytes are read. `<<` and `|` of bytes are sums of
-- multiples.
unfoldable pub parse_packet : List ℕ → Parsed
parse_packet packet =
    if ltb (length packet) 2
    then fail
    else (let header = meta (byte_at packet 0) (byte_at packet 1) in
        reading 2 packet (
          if header.payload_len == 126
          then if ltb (length packet) 4
            then fail
            else reading 4 packet (
                parse_payload (record header { length = byte_at packet 2 * 256 + byte_at packet 3 })
                  4 packet)
          else if header.payload_len == 127
          then if ltb (length packet) 10
            then fail
            else reading 10 packet (
                parse_payload
                  (record header {
                    length =
                        byte_at packet 6 * 2 ^ 24
                        + byte_at packet 7 * 2 ^ 16
                        + byte_at packet 8 * 2 ^ 8
                        + byte_at packet 9;
                  })
                  10 packet)
          else parse_payload header 2 packet))
