-- ===== src/Ir/Pulse.antt =====
-- The tolerance test that every receiver uses (ir/ir_receiver.h), and pulse trains that follow a
-- nominal one within a band.
use picolibs.Base.{ℕ, zero, suc, ◌+◌, ◌<◌, ◌≡◌, refl, ap, Bool, ◌&&◌, List, [], ◌∷◌, some, arith}
use picolibs.Base.{ltb, u32, sub32, get_elem?, drop, length}

-- `pulse > nom_pulse - band && pulse < nom_pulse + band`, in `uint32_t`.
abbrev pub compare_pulse : ℕ → ℕ → ℕ → Bool
compare_pulse pulse nom_pulse band =
    ltb (sub32 nom_pulse band) pulse && ltb pulse (u32 (nom_pulse + band))

-- A duration within `band` of its nominal value.
abbrev pub Close : ℕ → ℕ → ℕ → Type 0
Close band p t = (t < p + band) × (p < t + band)

-- A measured train whose every duration is within `band` of the nominal train's.
abbrev pub Near : ℕ → List ℕ → List ℕ → Type 0
Near band [] [] = Unit
Near band [] (t ∷ ts) = ⊥
Near band (p ∷ ps) [] = ⊥
Near band (p ∷ ps) (t ∷ ts) = Close band p t × Near band ps ts

-- The duration at an index, and what stands behind it.
pub Near-drop :
    (band : ℕ) (ps : List ℕ) (i t : ℕ) (ts : List ℕ)
    → Near band (drop i ps) (t ∷ ts)
    → (p : ℕ) × (get_elem? ps i ≡ some p) × Close band p t × Near band (drop (suc i) ps) ts
Near-drop band [] zero t ts h = absurd h
Near-drop band [] (suc i) t ts h = absurd h
Near-drop band (p ∷ ps) zero t ts h = (p, refl, h.0, h.1)
Near-drop band (p ∷ ps) (suc i) t ts h = Near-drop band ps i t ts h

-- A train is near itself.
pub Near-refl : (band : ℕ) → 0 < band → (ts : List ℕ) → Near band ts ts
Near-refl band h [] = tt
Near-refl band h (t ∷ ts) = ((omega arith, omega arith), Near-refl band h ts)

pub length-Near : (band : ℕ) (ps ts : List ℕ) → Near band ps ts → length ps ≡ length ts
length-Near band [] [] h = refl
length-Near band [] (t ∷ ts) h = absurd h
length-Near band (p ∷ ps) [] h = absurd h
length-Near band (p ∷ ps) (t ∷ ts) h = ap suc (length-Near band ps ts h.1)
