-- ===== src/Ir/Samsung/Bounds.antt =====
-- `SAMSUNG_Receiver::decode` reads nothing outside its array.
use picolibs.Base.{
  ℕ, ◌+◌, ◌≤◌, ◌<◌, ◌^◌, ◌≡◌, refl, some, List, arith, length, get_elem?, get_elem?-lt,
  if◌then◌else◌, Returns, Returns-if, Returns-bind, ltb, not, ◌||◌, ◌==◌, sub32,
}
use picolibs.Ir.Message.{Decoded}
use picolibs.Ir.Samsung.{samsung_base_pulse}
use picolibs.Ir.Samsung.Receiver.{decode, decode_from, decode_data, check_data, is_pulse}
use picolibs.Ir.PulseDistance.Decode.{decode_byte_total}

decode_data_total :
    (ps : List ℕ) (address : ℕ)
    → 67 ≤ length ps
    → (d : Decoded) × (decode_data ps 3 address ≡ some d)
unfolding decode_data
decode_data_total ps address h =
    let (b0, e0) = decode_byte_total samsung_base_pulse 3 ps (omega arith) in
    let (b1, e1) = decode_byte_total samsung_base_pulse 19 ps (omega arith) in
    let (b2, e2) = decode_byte_total samsung_base_pulse 35 ps (omega arith) in
    let (b3, e3) = decode_byte_total samsung_base_pulse 51 ps (omega arith) in
    (check_data b0 b1 b2 b3 address, rw (e0, e1, e2, e3))

decode_from_total :
    (ps : List ℕ) (n_pulse address ii : ℕ)
    → ii ≤ 1
    → 3 ≤ n_pulse
    → n_pulse ≤ length ps
    → n_pulse < 2 ^ 32
    → Returns (decode_from ps n_pulse address ii)
unfolding decode_from
decode_from_total ps n_pulse address ii small long h fits =
    Returns-bind (get_elem? ps ii) _ (get_elem?-lt ps ii (omega arith)) λ pulse _.
      let ii' = (if is_pulse 8 pulse then ii + 1 else ii) + 1 in
      Returns-if (not (ii' == 3) || ltb (sub32 n_pulse ii') 64) _ _ (λ _. (_, refl))
        λ enough.
          let three : ii' ≡ 3 = ground arith in
          rw three (decode_data_total ps address (ground arith))

-- `decode` reads no pulse outside an array of at least `n_pulse` ones: it always returns.
pub samsung_decode_total :
    (ps : List ℕ) (n_pulse address : ℕ)
    → n_pulse ≤ length ps
    → n_pulse < 2 ^ 32
    → (d : Decoded) × (decode ps n_pulse address ≡ some d)
unfolding decode
samsung_decode_total ps n_pulse address h fits =
    Returns-if (ltb n_pulse 3) _ _ (λ _. (_, refl))
      λ long. Returns-bind (get_elem? ps 0) _ (get_elem?-lt ps 0 (ground arith)) λ first _.
        decode_from_total ps n_pulse address (if is_pulse 8 first then 1 else 0) (ground arith)
          (ground arith) h fits
