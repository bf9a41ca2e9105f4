-- ===== src/Base/Maps.antt =====
-- `std::map` with numbers as keys, as a list of its entries in the order of their keys.
use Prim.Native.Nat.{ℕ}
use mathlib.Core.Logic.{◌⊎◌, inl, inr}
use mathlib.Core.Path.{◌≡◌, refl, ap, sym, ◌∙◌}
use mathlib.Core.Bool.{true, false}
use mathlib.Core.Option.{Option, none, some}
use mathlib.Core.List.{List, [], ◌∷◌}
use native.Mathlib.Omega.{arith}
use picolibs.Base.Tests.{==_iff, Bool-cases, ltb, ◌==◌, if◌then◌else◌, ◌>>=◌}

module _ {ℓ} {V : Type ℓ} where
  abbrev pub find_key : ℕ → List (ℕ × V) → Option V
  find_key k [] = none
  find_key k ((j, v) ∷ m) = if j == k then some v else find_key k m

  -- `emplace`: an entry that is there stays.
  abbrev pub emplace : ℕ → V → List (ℕ × V) → List (ℕ × V)
  emplace k v [] = (k, v) ∷ []
  emplace k v ((j, w) ∷ m) =
      if j == k then (j, w) ∷ m else if ltb k j then (k, v) ∷ (j, w) ∷ m else (j, w) ∷ emplace k v m

  abbrev pub erase_key : ℕ → List (ℕ × V) → List (ℕ × V)
  erase_key k [] = []
  erase_key k ((j, v) ∷ m) = if j == k then erase_key k m else (j, v) ∷ erase_key k m

  -- A change of what an entry points to.
  abbrev pub modify_key : ℕ → (V → V) → List (ℕ × V) → List (ℕ × V)
  modify_key k f [] = []
  modify_key k f ((j, v) ∷ m) =
      if j == k then (j, f v) ∷ modify_key k f m else (j, v) ∷ modify_key k f m

  pub find_key-emplace :
      (i k : ℕ) (v : V) (m : List (ℕ × V))
      → find_key k m ≡ none
      → find_key i (emplace k v m) ≡ (if k == i then some v else find_key i m)
  find_key-emplace i k v [] h = refl
  find_key-emplace i k v ((j, w) ∷ m) h = ground (arith, find_key-emplace i k v m)

  pub find_key-erase_key :
      (i k : ℕ) (m : List (ℕ × V))
      → find_key i (erase_key k m) ≡ (if k == i then none else find_key i m)
  find_key-erase_key i k [] = ground arith
  find_key-erase_key i k ((j, w) ∷ m) = ground (arith, find_key-erase_key i k m)

  pub find_key-modify_key :
      (i k : ℕ) (f : V → V) (m : List (ℕ × V))
      → find_key i (modify_key k f m)
        ≡ (if k == i then (find_key i m >>= λ v. some (f v)) else find_key i m)
  find_key-modify_key i k f [] = ground arith
  find_key-modify_key i k f ((j, w) ∷ m) = ground (arith, find_key-modify_key i k f m)

  -- What a search finds after an entry is erased, it found before, under another key.
  pub find_key-erased :
      (i k : ℕ) (v : V) (m : List (ℕ × V))
      → find_key i (erase_key k m) ≡ some v
      → ((k == i) ≡ false) × (find_key i m ≡ some v)
  find_key-erased i k v m e = ground (arith, find_key-erase_key i k m)

  pub find_key-emplaced :
      (i k : ℕ) (v w : V) (m : List (ℕ × V))
      → find_key k m ≡ none
      → find_key i (emplace k v m) ≡ some w
      → (((k == i) ≡ true) × (v ≡ w)) ⊎ (((k == i) ≡ false) × (find_key i m ≡ some w))
  find_key-emplaced i k v w m unused e = ground (arith, find_key-emplace i k v m unused)

  pub find_key-differ :
      (i k : ℕ) (v : V) (m : List (ℕ × V))
      → find_key k m ≡ none
      → find_key i m ≡ some v
      → (k == i) ≡ false
  find_key-differ i k v m unused found = elim (Bool-cases (k == i)) [
    | inr e ↦ e
    | inl e ↦
        let both : none ≡ some v =
          sym unused ∙ ap (λ (j : ℕ). find_key j m) ((==_iff k i).0 e) ∙ found in
        ground (arith, both)
  ]
