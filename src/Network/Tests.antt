-- ===== src/Network/Tests.antt =====
-- Web socket packets: one with a mask, one with a false length, and one whose length wraps.
use picolibs.Base.{
  ℕ, ◌≡◌, ◌*◌, ◌+◌, true, List, [], ◌∷◌, some, drop, arith, ◌<◌, suc, zero, ◌++◌, false, length,
}
use picolibs.Network.Ws.{Header, Key, build_packet, parse_packet, success, byte_at}
use picolibs.Base.{none, ◌≤◌, ◌%◌, bit_xor, replicate, refl, ap}
use picolibs.Util.Txt.{Txt, insert}
use picolibs.Util.Txt.Holds.{Holds}
use picolibs.Network.Ws.{header_bytes}
use picolibs.Network.Ws.Mask.{mask_from}
use picolibs.Network.Ws.InPlace.{build_in_place, build_in_place_unmasked, build_in_place_masked}
use picolibs.Network.Ws.Front.{header_of}
use picolibs.Network.Ws.RoundTrip.{parse_packet-build_packet}
use picolibs.Network.Ws.Bounds.{IsWithin, parse_packet-IsWithin, parse_packet_overflow}

abbrev mask_key : Key
mask_key j = 17 * j + 3

parse_packet-build_packet_example :
    (packet plain : List ℕ) × (header : Header) × (build_packet 0x81
        (72 ∷ 105 ∷ 33 ∷ 10 ∷ 13 ∷ [])
        true
        mask_key
      ≡ some packet)
    × (parse_packet packet ≡ success header plain)
    × (header.fin ≡ 1)
    × (header.opcode ≡ 1)
    × (header.masked ≡ true)
    × (header.length ≡ 5)
    × (drop header.start plain ≡ 72 ∷ 105 ∷ 33 ∷ 10 ∷ 13 ∷ [])
parse_packet-build_packet_example =
    parse_packet-build_packet 0x81 (72 ∷ 105 ∷ 33 ∷ 10 ∷ 13 ∷ []) true mask_key (omega arith)

-- The length field says 3, where two bytes follow.
abbrev cut_packet : List ℕ
cut_packet = 130 ∷ 3 ∷ 1 ∷ 2 ∷ []

cut_packet_bytes : (i : ℕ) → byte_at cut_packet i < 256
cut_packet_bytes zero = omega arith
cut_packet_bytes (suc zero) = omega arith
cut_packet_bytes (suc (suc zero)) = omega arith
cut_packet_bytes (suc (suc (suc zero))) = omega arith
cut_packet_bytes (suc (suc (suc (suc i)))) = omega arith

parse_packet-IsWithin_example : IsWithin cut_packet (parse_packet cut_packet)
parse_packet-IsWithin_example = parse_packet-IsWithin cut_packet cut_packet_bytes (omega arith)

parse_packet_overflow_example :
    (header : Header) × (parse_packet (header_of 2 0xfffffff8 false ++ (1 ∷ 2 ∷ []))
      ≡ success header (header_of 2 0xfffffff8 false ++ (1 ∷ 2 ∷ [])))
    × (length (header_of 2 0xfffffff8 false ++ (1 ∷ 2 ∷ [])) < header.start + header.length)
parse_packet_overflow_example =
    parse_packet_overflow 2 0xfffffff8 (1 ∷ 2 ∷ []) (omega arith) (omega arith) (omega arith)

abbrev fresh : ℕ → List ℕ
fresh n = replicate n 7

length-fresh : (n : ℕ) → length (fresh n) ≡ n
length-fresh zero = refl
length-fresh (suc n) = ap suc (length-fresh n)

abbrev hello : Txt
hello = record { buffer = some (72 ∷ 105 ∷ 0 ∷ []); bufsiz = 3; endptr = 2 }

hello-Holds : Holds hello (72 ∷ 105 ∷ [])
hello-Holds = record { junk = []; memory = refl; ends = refl; size = refl; small = omega arith }

build_in_place_unmasked_example :
    (t' : Txt) × (packet : List ℕ) × (build_in_place fresh 1 false mask_key hello
      ≡ some (length packet, t'))
    × (build_packet 1 (72 ∷ 105 ∷ []) false mask_key ≡ some packet)
    × Holds t' packet
build_in_place_unmasked_example =
    build_in_place_unmasked fresh length-fresh 1 false mask_key hello (72 ∷ 105 ∷ []) hello-Holds
      refl (omega arith)

build_in_place_masked_example :
    let hdr = header_bytes 1 2 true mask_key in
    (t' : Txt) × (junk : List ℕ) × (insert fresh 0 hdr (length hdr) hello ≡ some (length hdr, t'))
    × (t'.buffer ≡ some ((hdr ++ (72 ∷ 105 ∷ [])) ++ (0 ∷ junk)))
    × (length junk + 1 < length hdr → build_in_place fresh 1 true mask_key hello ≡ none)
    × (length hdr ≤ length junk + 1
        → (behind : List ℕ) × (build_in_place fresh 1 true mask_key hello
            ≡ some (
              length hdr + 2,
              record t' {
                buffer = some (
                    hdr
                    ++ (mask_from mask_key 0 (72 ∷ 105 ∷ [])
                        ++ (bit_xor 0 (mask_key (2 % 4)) ∷ behind)));
              },
            )))
build_in_place_masked_example =
    build_in_place_masked fresh length-fresh 1 mask_key hello (72 ∷ 105 ∷ []) hello-Holds
      (omega arith) (omega arith)
