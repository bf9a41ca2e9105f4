-- ===== src/Ir/Led/Load.antt =====
-- What `setOutputTimes` loads, and that it keeps the array large enough.
use picolibs.Base.{
  ℕ, zero, suc, ◌+◌, ◌≤◌, ◌≡◌, refl, ap, ◌∙◌, false, none, List, [], ◌∷◌, ◌++◌, arith, ltb, length,
  drop, replicate, Bool-cases, inl, inr,
}
use picolibs.Ir.Led.{Led, copy_times, set_output_times}

copy_times_lem :
    (ts array : List ℕ)
    → length ts ≤ length array
    → copy_times ts array ≡ ts ++ drop (length ts) array
unfolding copy_times
copy_times_lem [] array h = refl
copy_times_lem (t ∷ ts) [] h = absurd (omega arith)
copy_times_lem (t ∷ ts) (x ∷ array) h = ap (◌∷◌ t) (copy_times_lem ts array (omega arith))

length-copy_times : (ts array : List ℕ) → length (copy_times ts array) ≡ length array
unfolding copy_times
length-copy_times [] array = refl
length-copy_times (t ∷ ts) [] = refl
length-copy_times (t ∷ ts) (x ∷ array) = ap suc (length-copy_times ts array)

length-replicate : (n : ℕ) → length (replicate n (let z : ℕ = 0 in z)) ≡ n
length-replicate zero = refl
length-replicate (suc n) = ap suc (length-replicate n)

-- Whatever the transmitter held, loading times stops it and leaves exactly these times in front of
-- its array, whose size stays the recorded one and holds them all.
pub set_output_times_lem :
    (ts : List ℕ) (l : Led)
    → length l.times ≡ l.a_times
    → let l' = set_output_times ts (length ts) l in
      (l'.n_times ≡ length ts)
      × ((junk : List ℕ) × (l'.times ≡ ts ++ junk))
      × (length l'.times ≡ l'.a_times)
      × (length ts ≤ l'.a_times)
      × (l'.timer ≡ none)
      × (l'.carrier ≡ false)
unfolding set_output_times
set_output_times_lem ts l h = elim (Bool-cases (ltb l.a_times (length ts))) [
  | inl grows ↦
      let array = replicate (length ts + 16) (let z : ℕ = 0 in z) in
      rw grows (
        refl,
        (_, copy_times_lem ts array (omega (arith, length-replicate (length ts + 16)))),
        length-copy_times ts array ∙ length-replicate (length ts + 16),
        omega arith,
        refl,
        refl,
      )
  | inr enough ↦ rw enough (
    refl,
    (_, copy_times_lem ts l.times (ground (arith, enough, h))),
    length-copy_times ts l.times ∙ h,
    ground (arith, enough),
    refl,
    refl,
  )
]
