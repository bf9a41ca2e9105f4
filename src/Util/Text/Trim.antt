-- ===== src/Util/Text/Trim.antt =====
-- White space at the two ends of a text.
use picolibs.Base.{
  ℕ, suc, ◌+◌, ◌≡◌, refl, sym, ap, subst, ◌∙◌, ◌⊎◌, ◌≢◌, true, false, none, some, List, [], ◌∷◌,
  ◌++◌, arith, Bool-cases, Option-cases, inl, inr,
}
use picolibs.Util.Text.{
  contains, white, find_last_not_white, find_first_not_white, trim_back, trim_front,
}

abbrev pub AllWhite : List ℕ → Type 0
AllWhite [] = Unit
AllWhite (x ∷ xs) = (contains white x ≡ true) × AllWhite xs

trim_front-white :
    (x : ℕ) (xs : List ℕ) → contains white x ≡ true → trim_front (x ∷ xs) ≡ trim_front xs
unfolding trim_front find_first_not_white
trim_front-white x xs h = elim (Option-cases (find_first_not_white xs)) [
  | inl e ↦ rw (h, e, trim_front)
  | inr (i, e) ↦ rw (h, e, trim_front)
]

trim_front-other : (x : ℕ) (xs : List ℕ) → contains white x ≡ false → trim_front (x ∷ xs) ≡ x ∷ xs
unfolding trim_front find_first_not_white
trim_front-other x xs h = rw (h, trim_front)

trim_front_nil : trim_front [] ≡ []
unfolding trim_front find_first_not_white
trim_front_nil = refl

trim_front_lem :
    (str : List ℕ)
    → ((front : List ℕ) × (str ≡ front ++ trim_front str) × AllWhite front)
      × ((trim_front str ≡ [])
          ⊎ ((x : ℕ) × (rest : List ℕ) × (trim_front str ≡ x ∷ rest) × (contains white x ≡ false)))
trim_front_lem [] = (([], sym trim_front_nil, tt), inl trim_front_nil)
trim_front_lem (x ∷ xs) = elim (Bool-cases (contains white x)) [
  | inl here ↦
      let ((front, e, all), shape) = trim_front_lem xs in
      let same = trim_front-white x xs here in
      (
        (x ∷ front, ap (◌∷◌ x) e ∙ ap (λ (m : List ℕ). (x ∷ front) ++ m) (sym same), (here, all)),
        rw same shape,
      )
  | inr other ↦
      let same = trim_front-other x xs other in (([], sym same, tt), inr (x, xs, same, other))
]

trim_back_nil : trim_back [] ≡ []
unfolding trim_back find_last_not_white
trim_back_nil = refl

trim_back-none : (xs : List ℕ) → find_last_not_white xs ≡ none → trim_back xs ≡ []
unfolding trim_back
trim_back-none xs e = rw (e, trim_back)

trim_back-cons :
    (x : ℕ) (xs : List ℕ) (i : ℕ)
    → find_last_not_white xs ≡ some i
    → trim_back (x ∷ xs) ≡ x ∷ trim_back xs
unfolding trim_back find_last_not_white
trim_back-cons x xs i e =
    let index : suc i + 1 ≡ suc (i + 1) = omega arith in rw (e, trim_back, index)

trim_back-white :
    (x : ℕ) (xs : List ℕ)
    → find_last_not_white xs ≡ none
    → contains white x ≡ true
    → trim_back (x ∷ xs) ≡ []
unfolding trim_back find_last_not_white
trim_back-white x xs e h = rw (e, trim_back, h)

trim_back-other :
    (x : ℕ) (xs : List ℕ)
    → find_last_not_white xs ≡ none
    → contains white x ≡ false
    → trim_back (x ∷ xs) ≡ x ∷ []
unfolding trim_back find_last_not_white
trim_back-other x xs e h = rw (e, trim_back, h)

trim_back-ne-nil : (xs : List ℕ) (i : ℕ) → find_last_not_white xs ≡ some i → trim_back xs ≢ []
unfolding find_last_not_white
trim_back-ne-nil [] i e empty = absurd (cc)
trim_back-ne-nil (x ∷ xs) i e empty = elim (Option-cases (find_last_not_white xs)) [
  | inr (j, e') ↦ cons_ne (sym (trim_back-cons x xs j e') ∙ empty)
  | inl e' ↦ elim (Bool-cases (contains white x)) [
    | inl here ↦ absurd (ground (arith, rw (e', here) at e))
    | inr other ↦ cons_ne (sym (trim_back-other x xs e' other) ∙ empty)
  ]
]
  where
    cons_ne : {y : ℕ} {ys : List ℕ} → y ∷ ys ≡ [] → ⊥
    cons_ne h = cc

trim_back_lem :
    (str : List ℕ)
    → ((back : List ℕ) × (str ≡ trim_back str ++ back) × AllWhite back)
      × ((trim_back str ≡ [])
          ⊎ ((rest : List ℕ) × (x : ℕ) × (trim_back str ≡ rest ++ (x ∷ []))
              × (contains white x ≡ false)))
trim_back_lem [] = (([], rw trim_back_nil, tt), inl trim_back_nil)
trim_back_lem (x ∷ xs) = elim (Option-cases (find_last_not_white xs)) [
  | inr (i, e) ↦
      let ((back, whole, all), shape) = trim_back_lem xs in
      let more = trim_back-cons x xs i e in
      (
        (back, ap (◌∷◌ x) whole ∙ ap (λ (m : List ℕ). m ++ back) (sym more), all),
        inr (elim shape [
          | inl empty ↦ absurd (trim_back-ne-nil xs i e empty)
          | inr (rest, y, last, other) ↦ (x ∷ rest, y, more ∙ ap (◌∷◌ x) last, other)
        ]),
      )
  | inl e ↦
      let ((back, whole, all), _) = trim_back_lem xs in
      let left = trim_back-none xs e in
      let all_of : AllWhite xs =
        subst AllWhite (sym (whole ∙ ap (λ (m : List ℕ). m ++ back) left)) all in
      elim (Bool-cases (contains white x)) [
        | inl here ↦
            let same = trim_back-white x xs e here in
            ((x ∷ xs, ap (λ (m : List ℕ). m ++ (x ∷ xs)) (sym same), (here, all_of)), inl same)
        | inr other ↦
            let same = trim_back-other x xs e other in
            ((xs, ap (λ (m : List ℕ). m ++ xs) (sym same), all_of), inr ([], x, same, other))
      ]
]

-- `trim_front` and `trim_back` take white space off their end of a text, and what is left is empty or has another
-- character there.
pub trim_lem :
    (str : List ℕ)
    → ((front : List ℕ) × (str ≡ front ++ trim_front str) × AllWhite front)
      × ((trim_front str ≡ [])
          ⊎ ((x : ℕ) × (rest : List ℕ) × (trim_front str ≡ x ∷ rest) × (contains white x ≡ false)))
      × ((back : List ℕ) × (str ≡ trim_back str ++ back) × AllWhite back)
      × ((trim_back str ≡ [])
          ⊎ ((rest : List ℕ) × (x : ℕ) × (trim_back str ≡ rest ++ (x ∷ []))
              × (contains white x ≡ false)))
trim_lem str =
    let (front, first) = trim_front_lem str in
    let (back, last) = trim_back_lem str in (front, first, back, last)
