-- ===== src/Network/Ws/Payload.antt =====
-- The mask and the payload behind the header, as `ParsePacket` reads them.
use picolibs.Base.{
  ℕ, zero, suc, ◌+◌, ◌^◌, ◌<◌, ◌≡◌, sym, ap, ◌∙◌, Bool, true, false, some, List, [], ◌++◌,
  append_assoc, append-nil, arith, ltb, leb, if◌then◌else◌, u32, get_elem?, length, length-append,
  get_elem?-append_right,
}
use picolibs.Network.Ws.{
  Header, Key, success, xor_loop, key_bytes, parse_payload, byte_at, read_key,
}
use picolibs.Network.Ws.Mask.{mask_from, length-mask_from, mask_twice, xor_loop_lem}

abbrev pub masked_by : Bool → Key → List ℕ → List ℕ
masked_by masked key payload = if masked then mask_from key 0 payload else payload

abbrev pub mask_size : Bool → ℕ
mask_size masked = if masked then 4 else 0

read_byte : (packet : List ℕ) (i y : ℕ) → get_elem? packet i ≡ some y → byte_at packet i ≡ y
read_byte packet i y e = rw (byte_at, e)

read_key_lem :
    (pre body : List ℕ) (key : Key) (index : ℕ)
    → index ≡ length pre
    → (j : ℕ) → j < 4
    → read_key (pre ++ (key_bytes true key ++ body)) index j ≡ key j
read_key_lem pre body key index e zero h =
    read_byte (pre ++ (key_bytes true key ++ body)) (index + 0) (key 0)
      (get_elem?-append_right pre (key_bytes true key ++ body) (index + 0) 0 (omega arith))
read_key_lem pre body key index e (suc zero) h =
    read_byte (pre ++ (key_bytes true key ++ body)) (index + 1) (key 1)
      (get_elem?-append_right pre (key_bytes true key ++ body) (index + 1) 1 (omega arith))
read_key_lem pre body key index e (suc (suc zero)) h =
    read_byte (pre ++ (key_bytes true key ++ body)) (index + 2) (key 2)
      (get_elem?-append_right pre (key_bytes true key ++ body) (index + 2) 2 (omega arith))
read_key_lem pre body key index e (suc (suc (suc zero))) h =
    read_byte (pre ++ (key_bytes true key ++ body)) (index + 3) (key 3)
      (get_elem?-append_right pre (key_bytes true key ++ body) (index + 3) 3 (omega arith))
read_key_lem pre body key index e (suc (suc (suc (suc j)))) h = absurd (omega arith)

-- The loop takes the mask off again.
unmask :
    (pre payload : List ℕ) (key : Key) (index : ℕ)
    → index ≡ length pre
    → xor_loop
        (read_key (pre ++ (key_bytes true key ++ mask_from key 0 payload)) index)
        (length payload)
        0
        (index + 4)
        (pre ++ (key_bytes true key ++ mask_from key 0 payload))
      ≡ some (pre ++ (key_bytes true key ++ payload))
unmask pre payload key index e =
    let masked = mask_from key 0 payload in
    let whole = pre ++ (key_bytes true key ++ masked) in
    let front = pre ++ key_bytes true key in
    let read = read_key whole index in
    let at_front : front ++ (masked ++ []) ≡ whole =
      ap (◌++◌ front) (append-nil masked) ∙ append_assoc pre (key_bytes true key) masked in
    let restored : front ++ (mask_from read 0 masked ++ [])
        ≡ pre ++ (key_bytes true key ++ payload) =
      ap (◌++◌ front) (
        append-nil (mask_from read 0 masked)
        ∙ mask_twice key read 0 payload (read_key_lem pre masked key index e))
      ∙ append_assoc pre (key_bytes true key) payload in
    ap (λ (n : ℕ). xor_loop read n 0 (index + 4) whole) (sym (length-mask_from key 0 payload))
    ∙ ap (xor_loop read (length masked) 0 (index + 4)) (sym at_front)
    ∙ xor_loop_lem read masked front [] 0 (index + 4)
        (omega (arith, length-append pre (key_bytes true key)))
    ∙ ap (λ (xs : List ℕ). some xs) restored

parse_payload_masked :
    (h : Header) (pre payload : List ℕ) (key : Key) (index : ℕ)
    → h.masked ≡ true
    → index ≡ length pre
    → h.length ≡ length payload
    → index + 4 + length payload < 2 ^ 32
    → parse_payload h index (pre ++ (key_bytes true key ++ mask_from key 0 payload))
      ≡ success (record h { start = index + 4 }) (pre ++ (key_bytes true key ++ payload))
unfolding parse_payload
parse_payload_masked h pre payload key index m e len fits =
    let masked = mask_from key 0 payload in
    let whole = pre ++ (key_bytes true key ++ masked) in
    let size : length whole ≡ index + 4 + length payload =
      omega
        (arith, length-append pre (key_bytes true key ++ masked), length-mask_from key 0 payload) in
    let room : ltb (length whole) (index + 4) ≡ false = ground (arith, size) in
    let inside : leb (index + 4) (length whole) ≡ true = ground (arith, size) in
    let rest : ltb (length whole) (u32 (index + 4 + length payload)) ≡ false =
      ground (arith, size) in
    rw (m, len, room, inside, rest, unmask pre payload key index e)

parse_payload_plain :
    (h : Header) (pre payload : List ℕ) (index : ℕ)
    → h.masked ≡ false
    → index ≡ length pre
    → h.length ≡ length payload
    → index + length payload < 2 ^ 32
    → parse_payload h index (pre ++ payload) ≡ success (record h { start = index }) (pre ++ payload)
unfolding parse_payload
parse_payload_plain h pre payload index m e len fits =
    let whole : ltb (length (pre ++ payload)) (u32 (index + length payload)) ≡ false =
      ground (arith, length-append pre payload) in
    rw (m, len, whole)

pub parse_payload_lem :
    (h : Header) (pre payload : List ℕ) (key : Key) (index : ℕ) (masked : Bool)
    → h.masked ≡ masked
    → index ≡ length pre
    → h.length ≡ length payload
    → index + 4 + length payload < 2 ^ 32
    → parse_payload h index (pre ++ (key_bytes masked key ++ masked_by masked key payload))
      ≡ success
          (record h { start = index + mask_size masked })
          (pre ++ (key_bytes masked key ++ payload))
parse_payload_lem h pre payload key index true m e len fits =
    parse_payload_masked h pre payload key index m e len fits
parse_payload_lem h pre payload key index false m e len fits =
    parse_payload_plain h pre payload index m e len (omega arith)
    ∙ ap (λ (i : ℕ). success (record h { start = i }) (pre ++ payload)) (omega arith)
