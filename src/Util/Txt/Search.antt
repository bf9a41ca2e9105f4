-- ===== src/Util/Txt/Search.antt =====
-- The search for a text, and what `substitute` does with it.
use picolibs.Base.{
  ℕ, zero, suc, ◌+◌, ◌<◌, ◌^◌, ◌≡◌, refl, sym, ap, subst, ◌∙◌, ◌⊎◌, Bool, true, false, ◌&&◌, Option,
  none, some, List, [], ◌∷◌, ◌++◌, arith, ◌==◌, ==_iff, ◌>>=◌, length, length-append, drop,
  Bool-cases, Option-cases, inl, inr,
}
use picolibs.Util.Memory.{c_text}
use picolibs.Util.Memory.Laws.{AllNonzero, c_text-append}
use picolibs.Util.Txt.{Txt, is_prefix, find_text, substitute, substitute_at}
use picolibs.Util.Txt.Holds.{Holds, Allocates}
use picolibs.Util.Txt.Edit.{replace_refines}

is_prefix-eq : (p xs : List ℕ) → is_prefix p xs ≡ true → (post : List ℕ) × (xs ≡ p ++ post)
is_prefix-eq [] xs h = (xs, refl)
is_prefix-eq (p ∷ ps) [] h = absurd (cc)
is_prefix-eq (p ∷ ps) (x ∷ xs) h =
    let (same, rest) = both (p == x) (is_prefix ps xs) h in
    let (post, e) = is_prefix-eq ps xs rest in
    let head : x ≡ p = sym ((==_iff p x).0 same) in (post, rw (head, e) refl)
  where
    both : (a b : Bool) → (a && b) ≡ true → (a ≡ true) × (b ≡ true)
    both true true h = (refl, refl)
    both true false h = absurd (cc)
    both false b h = absurd (cc)

none_ne : (i : ℕ) → ◌≡◌ {A = Option ℕ} none (some i) → ⊥
none_ne i h = cc

-- A claim about the places of a text, from the first one and the others.
before :
    (p : List ℕ) (x : ℕ) (xs : List ℕ) (j : ℕ)
    → is_prefix p (x ∷ xs) ≡ false
    → ((j' : ℕ) → j ≡ suc j' → is_prefix p (drop j' xs) ≡ false)
    → is_prefix p (drop j (x ∷ xs)) ≡ false
before p x xs zero absent rest = absent
before p x xs (suc j) absent rest = rest j refl

-- What is found stands in the text.
pub find_text_sound :
    (p xs : List ℕ) (i : ℕ)
    → find_text p xs ≡ some i
    → (pre post : List ℕ) × (xs ≡ pre ++ (p ++ post)) × (i ≡ length pre)
unfolding find_text
find_text_sound [] [] i h = ([], [], refl, ground arith)
find_text_sound (q ∷ p) [] i h = absurd (cc)
find_text_sound p (x ∷ xs) i h = elim (Bool-cases (is_prefix p (x ∷ xs))) [
  | inl here ↦
      let (post, e) = is_prefix-eq p (x ∷ xs) here in ([], post, e, ground (arith, rw here at h))
  | inr absent ↦ elim (Option-cases (find_text p xs)) [
    | inl e ↦ absurd (none_ne i (rw (absent, e) at h))
    | inr (j, e) ↦
        let (pre, post, whole, len) = find_text_sound p xs j e in
        (x ∷ pre, post, ap (◌∷◌ x) whole, ground (arith, rw (absent, e) at h, len))
  ]
]

-- Nothing stands in front of what is found.
pub find_text_first :
    (p xs : List ℕ) (i : ℕ)
    → find_text p xs ≡ some i
    → (j : ℕ) → j < i
    → is_prefix p (drop j xs) ≡ false
unfolding find_text
find_text_first [] [] i h j lt = absurd (ground arith)
find_text_first (q ∷ p) [] i h j lt = absurd (cc)
find_text_first p (x ∷ xs) i h j lt = elim (Bool-cases (is_prefix p (x ∷ xs))) [
  | inl here ↦ absurd (ground (arith, rw here at h))
  | inr absent ↦ elim (Option-cases (find_text p xs)) [
    | inl e ↦ absurd (none_ne i (rw (absent, e) at h))
    | inr (k, e) ↦
        let same : suc k ≡ i = ground (arith, rw (absent, e) at h) in
        before p x xs j absent (λ j' e'. find_text_first p xs k e j' (omega arith))
  ]
]

-- A search that fails leaves nothing out.
pub find_text-none :
    (p xs : List ℕ) → find_text p xs ≡ none → (j : ℕ) → is_prefix p (drop j xs) ≡ false
unfolding find_text
find_text-none [] [] h j = absurd (cc)
find_text-none (q ∷ p) [] h zero = refl
find_text-none (q ∷ p) [] h (suc j) = refl
find_text-none p (x ∷ xs) h j = elim (Bool-cases (is_prefix p (x ∷ xs))) [
  | inl here ↦ absurd (ground (arith, rw here at h))
  | inr absent ↦ elim (Option-cases (find_text p xs)) [
    | inl e ↦ before p x xs j absent (λ j' e'. find_text-none p xs e j')
    | inr (k, e) ↦ absurd (ground (arith, rw (absent, e) at h))
  ]
]

module _ (fresh : ℕ → List ℕ) (allocates : Allocates fresh) where
  -- On a text without a terminator in it, substituting succeeds: if the placeholder stands nowhere,
  -- nothing changes and the answer is false; else the answer is true, and the replacement stands where the
  -- placeholder stood first.
  pub substitute_refines :
      (t : Txt) (text placeholder replacement : List ℕ)
      → Holds t text
      → AllNonzero text
      → length text + length replacement + 2048 < 2 ^ 32
      → (((j : ℕ) → is_prefix placeholder (drop j text) ≡ false)
          × (substitute fresh placeholder replacement t ≡ some (false, t)))
        ⊎ ((pre post : List ℕ) × (t' : Txt) × (text ≡ pre ++ (placeholder ++ post))
            × ((j : ℕ) → j < length pre → is_prefix placeholder (drop j text) ≡ false)
            × (substitute fresh placeholder replacement t ≡ some (true, t'))
            × Holds t' (pre ++ (replacement ++ post)))
  unfolding substitute substitute_at
  substitute_refines t text placeholder replacement h nonzero fits =
      let seen = c_text-append text h.junk nonzero in
      let found : (o : Option ℕ)
          → find_text placeholder text ≡ o
          → substitute fresh placeholder replacement t
            ≡ substitute_at fresh placeholder replacement t o =
        (λ o e.
          ap
            (λ (b : Option (List ℕ)). b >>= λ memory. c_text memory >>= λ s.
              substitute_at fresh placeholder replacement t (find_text placeholder s))
            h.memory
          ∙ ap
              (λ (b : Option (List ℕ)).
                b >>= λ s. substitute_at fresh placeholder replacement t (find_text placeholder s))
              seen
          ∙ ap (substitute_at fresh placeholder replacement t) e) in
      elim (Option-cases (find_text placeholder text)) [
        | inl e ↦ inl (find_text-none placeholder text e, found none e)
        | inr (i, e) ↦
            let (pre, post, whole, len) = find_text_sound placeholder text i e in
            let size : length text ≡ length pre + length placeholder + length post = omega (
              arith,
              ap length whole,
              length-append pre (placeholder ++ post),
              length-append placeholder post,
            ) in
            let (t', replaced, h') =
              replace_refines fresh allocates t pre placeholder post replacement
                (subst (Holds t) whole h) (omega (arith, size)) in
            inr (
              pre,
              post,
              t',
              whole,
              (λ j lt. find_text_first placeholder text i e j (omega arith)),
              found (some i) e
                  ∙ ap (λ (k : ℕ). substitute_at fresh placeholder replacement t (some k)) len
                  ∙ ap (λ (o : Option Txt). o >>= λ new. some (true, new)) replaced,
              h',
            )
      ]
