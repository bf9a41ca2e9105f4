-- ===== src/Network/Http/Order.antt =====
-- The order of texts (`==` and `<` of a `std::string`).
use picolibs.Base.{
  ℕ, ◌≡◌, refl, sym, ap₂, ◌∙◌, inl, inr, Bool-cases, Bool, true, false, ◌&&◌, ◌||◌, List, [], ◌∷◌,
  arith, ltb, ◌==◌,
}
use picolibs.Network.Http.{same_text, text_less}

pub same_text_eq : (xs ys : List ℕ) → same_text xs ys ≡ true → xs ≡ ys
same_text_eq [] [] e = refl
same_text_eq [] (y ∷ ys) e = absurd (cc)
same_text_eq (x ∷ xs) [] e = absurd (cc)
same_text_eq (x ∷ xs) (y ∷ ys) e =
    let here : x ≡ y = ground (arith, e) in
    let rest : same_text xs ys ≡ true = ground (arith, e) in
    ap₂ (λ (z : ℕ) (zs : List ℕ). z ∷ zs) here (same_text_eq xs ys rest)

==_comm : (x y : ℕ) → (x == y) ≡ (y == x)
==_comm x y = ground arith

pub same_text_comm : (xs ys : List ℕ) → same_text xs ys ≡ same_text ys xs
same_text_comm [] [] = refl
same_text_comm [] (y ∷ ys) = refl
same_text_comm (x ∷ xs) [] = refl
same_text_comm (x ∷ xs) (y ∷ ys) = rw (==_comm x y, same_text_comm xs ys) refl

pub text_less_irrefl : (xs : List ℕ) → text_less xs xs ≡ false
text_less_irrefl [] = refl
text_less_irrefl (x ∷ xs) = let rest = text_less_irrefl xs in ground (arith, rest)

head_trans :
    (x y z : ℕ) (a b c : Bool)
    → (a ≡ true → b ≡ true → c ≡ true)
    → (ltb x y || x == y && a) ≡ true
    → (ltb y z || y == z && b) ≡ true
    → (ltb x z || x == z && c) ≡ true
head_trans x y z true true c f h k = let last = f refl refl in ground (arith, h, k, last)
head_trans x y z true false c f h k = ground (arith, h, k)
head_trans x y z false true c f h k = ground (arith, h, k)
head_trans x y z false false c f h k = ground (arith, h, k)

pub text_less_trans :
    (xs ys zs : List ℕ) → text_less xs ys ≡ true → text_less ys zs ≡ true → text_less xs zs ≡ true
text_less_trans [] [] zs h k = absurd (cc)
text_less_trans [] (y ∷ ys) [] h k = absurd (cc)
text_less_trans [] (y ∷ ys) (z ∷ zs) h k = refl
text_less_trans (x ∷ xs) [] zs h k = absurd (cc)
text_less_trans (x ∷ xs) (y ∷ ys) [] h k = absurd (cc)
text_less_trans (x ∷ xs) (y ∷ ys) (z ∷ zs) h k =
    let rest : text_less xs ys ≡ true → text_less ys zs ≡ true → text_less xs zs ≡ true =
      text_less_trans xs ys zs in
    head_trans x y z (text_less xs ys) (text_less ys zs) (text_less xs zs) rest h k

pub text_less_asym : (xs ys : List ℕ) → text_less xs ys ≡ true → text_less ys xs ≡ false
text_less_asym xs ys h = elim (Bool-cases (text_less ys xs)) [
  | inr e ↦ e
  | inl e ↦ let both : true ≡ false = sym (text_less_trans xs ys xs h e) ∙ text_less_irrefl xs in cc
]
