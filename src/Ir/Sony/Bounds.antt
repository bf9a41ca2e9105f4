-- ===== src/Ir/Sony/Bounds.antt =====
-- `Sony_Receiver::decode` reads nothing outside its array.
use picolibs.Base.{
  ℕ, zero, suc, ◌+◌, ◌*◌, ◌≤◌, ◌<◌, ◌^◌, ◌≡◌, refl, false, not, ◌||◌, some, List, arith, length,
  get_elem?, get_elem?-lt, if◌then◌else◌, Returns, Returns-if, Returns-bind, ltb, ◌==◌, sub32, u16,
  u32, bit_or, Bool-cases, inl, inr,
}
use picolibs.Ir.Message.{Decoded}
use picolibs.Ir.Sony.Receiver.{
  Field, complete, wrong, is_bad, is_pulse, decode_field, check_addr, check_func, decode,
}

-- The index behind a field that is complete.
abbrev EndsAt : ℕ → Field → Type 0
EndsAt n (complete value ii) = ii ≡ n
EndsAt n (wrong value) = Unit

decode_field_total :
    (ps : List ℕ) (left ii mask value n : ℕ)
    → n ≡ ii + 2 * left
    → n ≤ length ps
    → (f : Field) × (decode_field ps left ii mask value ≡ some f) × EndsAt n f
unfolding decode_field
decode_field_total ps zero ii mask value n e h = (complete value ii, refl, omega arith)
decode_field_total ps (suc left) ii mask value n e h =
    let (space, e1) = get_elem?-lt ps ii (omega arith) in
    let (mark, e2) = get_elem?-lt ps (ii + 1) (omega arith) in
    let (f, e3, ends) =
      decode_field_total ps left (ii + 2) (u16 (mask * 2))
        (if is_pulse 2 mark then bit_or value mask else value) n (omega arith) h in
    elim (Bool-cases (is_bad space mark)) [
      | inl bad ↦ (wrong value, rw (e1, e2, bad) refl, tt)
      | inr good ↦ (f, rw (e1, e2, good, e3) refl, ends)
    ]

check_func_total :
    (ps : List ℕ) (address addr_size n : ℕ) (f : Field)
    → EndsAt n f
    → n + 2 * addr_size ≤ length ps
    → Returns (check_func ps address addr_size f)
unfolding check_func
check_func_total ps address addr_size n (complete func ii) ends h =
    let (f, e, _) =
      decode_field_total ps addr_size ii 1 0 (ii + 2 * addr_size) refl (omega arith) in
    (check_addr func address f, rw e refl)
check_func_total ps address addr_size n (wrong func) ends h = (_, refl)

-- With fields of at most 16 bits each, `decode` reads no pulse outside an array of at least `n_pulse`
-- ones: it always returns.
pub sony_decode_total :
    (ps : List ℕ) (n_pulse address addr_size value_size : ℕ)
    → addr_size ≤ 16
    → value_size ≤ 16
    → n_pulse ≤ length ps
    → n_pulse < 2 ^ 32
    → (d : Decoded) × (decode ps n_pulse address addr_size value_size ≡ some d)
unfolding decode
sony_decode_total ps n_pulse address addr_size value_size ha hv h fits =
    Returns-if (ltb n_pulse 1) _ _ (λ _. (_, refl))
      λ some_pulse. Returns-bind (get_elem? ps 0) _ (get_elem?-lt ps 0 (ground arith)) λ first _.
        let ii = if is_pulse 4 first then 1 else 0 in
        Returns-if
          (not (ii == 1)
            || ltb (sub32 n_pulse ii) (sub32 (u32 (u32 (u32 (addr_size + value_size) * 2) + 1)) 1))
          _ _ (λ _. (_, refl))
          λ enough.
            let one : ii ≡ 1 = ground arith in
            let room : 1 + 2 * value_size + 2 * addr_size ≤ length ps =
              room_of n_pulse ii addr_size value_size (length ps) ha hv h fits (ground arith)
                enough in
            let (f, e, ends) =
              decode_field_total ps value_size ii 1 0 (1 + 2 * value_size) (omega arith)
                (omega arith) in
            let (d, e') = check_func_total ps address addr_size (1 + 2 * value_size) f ends room in
            (d, rw (e, e') refl)
  where
    room_of :
        (n ii a v len : ℕ)
        → a ≤ 16
        → v ≤ 16
        → n ≤ len
        → n < 2 ^ 32
        → 0 < n
        → (not (ii == 1) || ltb (sub32 n ii) (sub32 (u32 (u32 (u32 (a + v) * 2) + 1)) 1)) ≡ false
        → 1 + 2 * v + 2 * a ≤ len
    room_of n ii a v len ha hv h fits pos e = ground arith
