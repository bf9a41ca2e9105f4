-- ===== src/Base/Faults.antt =====
-- A predicate on what a step that may fault gives, if it gives anything.
use mathlib.Core.Path.{◌≡◌, refl, subst}
use mathlib.Core.Bool.{Bool, true, false}
use mathlib.Core.Option.{Option, none, some}
use picolibs.Base.Tests.{if◌then◌else◌, ◌>>=◌}

module _ {ℓ κ} {A : Type ℓ} (P : A → Type κ) where
  abbrev pub Holds : Option A → Type (ℓ ⊔ κ)
  Holds o = (a : A) → o ≡ some a → P a

  pub Holds-some : (a : A) → P a → Holds (some a)
  Holds-some a p b e = subst P (some_inj e) p
    where
      some_inj : {a b : A} → some a ≡ some b → a ≡ b
      some_inj e = cc

  pub Holds-if : (b : Bool) (x y : Option A) → Holds x → Holds y → Holds (if b then x else y)
  Holds-if true x y hx hy = hx
  Holds-if false x y hx hy = hy

pub Holds-bind {ℓ κ μ} :
    {A : Type ℓ} {B : Type κ} (P : B → Type μ) (o : Option A) (f : A → Option B)
    → ((a : A) → o ≡ some a → Holds P (f a))
    → Holds P (o >>= f)
Holds-bind {B = B} P none f h = λ b. none_some
  where
    none_some : {b : B} → none ≡ some b → P b
    none_some e = cc
Holds-bind {B = B} P (some a) f h = h a refl
