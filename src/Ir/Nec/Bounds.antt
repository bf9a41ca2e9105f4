-- ===== src/Ir/Nec/Bounds.antt =====
-- `NEC_Receiver::decode` reads nothing outside its array.
use picolibs.Base.{
  ℕ, ◌+◌, ◌≤◌, ◌<◌, ◌^◌, ◌≡◌, refl, some, List, arith, length, get_elem?, get_elem?-lt,
  if◌then◌else◌, Returns, Returns-if, Returns-bind, ltb, not, ◌||◌, ◌==◌, sub32,
}
use picolibs.Ir.Message.{Decoded}
use picolibs.Ir.Nec.{nec_base_pulse}
use picolibs.Ir.Nec.Receiver.{decode, decode_from, decode_data, check_data, is_repeat, is_pulse}
use picolibs.Ir.PulseDistance.Decode.{decode_byte_total}

decode_data_total :
    (ps : List ℕ) (address : ℕ)
    → 67 ≤ length ps
    → (d : Decoded) × (decode_data ps 3 address ≡ some d)
unfolding decode_data
decode_data_total ps address h =
    let (b0, e0) = decode_byte_total nec_base_pulse 3 ps (omega arith) in
    let (b1, e1) = decode_byte_total nec_base_pulse 19 ps (omega arith) in
    let (b2, e2) = decode_byte_total nec_base_pulse 35 ps (omega arith) in
    let (b3, e3) = decode_byte_total nec_base_pulse 51 ps (omega arith) in
    (check_data b0 b1 b2 b3 address, rw (e0, e1, e2, e3))

is_repeat_total :
    (ps : List ℕ) (ii pulse : ℕ) → ii ≤ 1 → 3 ≤ length ps → Returns (is_repeat ps ii pulse)
unfolding is_repeat
is_repeat_total ps ii pulse small long =
    Returns-if (is_pulse 4 pulse) _ _
      (λ _.
        Returns-bind (get_elem? ps (ii + 1)) _ (get_elem?-lt ps (ii + 1) (omega arith))
          λ next _. (_, refl))
      (λ _. (_, refl))

decode_from_total :
    (ps : List ℕ) (n_pulse address ii : ℕ)
    → ii ≤ 1
    → 3 ≤ n_pulse
    → n_pulse ≤ length ps
    → n_pulse < 2 ^ 32
    → Returns (decode_from ps n_pulse address ii)
unfolding decode_from
decode_from_total ps n_pulse address ii small long h fits =
    Returns-bind (get_elem? ps ii) _ (get_elem?-lt ps ii (omega arith)) λ pulse _.
      Returns-bind (is_repeat ps ii pulse) _ (is_repeat_total ps ii pulse small (omega arith))
        λ repeated _.
          let ii' = (if is_pulse 8 pulse then ii + 1 else ii) + 1 in
          Returns-if repeated _ _ (λ _. (_, refl))
            λ _.
              Returns-if (not (ii' == 3) || ltb (sub32 n_pulse ii') 64) _ _ (λ _. (_, refl))
                λ enough.
                  let three : ii' ≡ 3 = ground arith in
                  rw three (decode_data_total ps address (ground arith))

-- `decode` reads no pulse outside an array of at least `n_pulse` ones: it always returns.
pub nec_decode_total :
    (ps : List ℕ) (n_pulse address : ℕ)
    → n_pulse ≤ length ps
    → n_pulse < 2 ^ 32
    → (d : Decoded) × (decode ps n_pulse address ≡ some d)
unfolding decode
nec_decode_total ps n_pulse address h fits =
    Returns-if (ltb n_pulse 3) _ _ (λ _. (_, refl))
      λ long. Returns-bind (get_elem? ps 0) _ (get_elem?-lt ps 0 (ground arith)) λ first _.
        decode_from_total ps n_pulse address (if is_pulse 16 first then 1 else 0) (ground arith)
          (ground arith) h fits
