-- ===== src/Util/Text/Tokens.antt =====
-- The tokens of `split`, and what `join` makes of them.
use picolibs.Base.{
  ℕ, zero, suc, ◌+◌, ◌<◌, ◌≡◌, refl, sym, ap, ◌∙◌, true, false, none, some, List, [], ◌∷◌, ◌++◌,
  append_assoc, append-nil, arith, ltb, ◌==◌, if◌then◌else◌, length, take, drop, length-drop,
  Bool-cases, Option-cases, inl, inr,
}
use picolibs.Util.Text.{contains, find_first_of, split_rest, split, join_loop, join}

-- A text before the first token.
abbrev pub prepend : ℕ → List (List ℕ) → List (List ℕ)
prepend x [] = (x ∷ []) ∷ []
prepend x (token ∷ tokens) = (x ∷ token) ∷ tokens

-- The parts between the separators, character by character.
abbrev pub parts : List ℕ → List ℕ → List (List ℕ)
parts separators [] = [] ∷ []
parts separators (x ∷ xs) =
    if contains separators x then [] ∷ parts separators xs else prepend x (parts separators xs)

-- What the search for a separator says of the parts.
parts-none :
    (separators src : List ℕ)
    → find_first_of separators src ≡ none
    → parts separators src ≡ src ∷ []
unfolding find_first_of
parts-none separators [] h = refl
parts-none separators (x ∷ xs) h = elim (Bool-cases (contains separators x)) [
  | inl here ↦ absurd (ground (arith, rw here at h))
  | inr absent ↦ elim (Option-cases (find_first_of separators xs)) [
    | inl e ↦ rw (absent, parts-none separators xs e)
    | inr (i, e) ↦ absurd (ground (arith, rw (absent, e) at h))
  ]
]

parts-some :
    (separators src : List ℕ) (i : ℕ)
    → find_first_of separators src ≡ some i
    → (parts separators src ≡ take i src ∷ parts separators (drop (i + 1) src)) × (i < length src)
unfolding find_first_of
parts-some separators [] i h = absurd (cc)
parts-some separators (x ∷ xs) i h = elim (Bool-cases (contains separators x)) [
  | inl here ↦
      let first : i ≡ 0 = ground (arith, rw here at h) in rw (first, here) (refl, omega arith)
  | inr absent ↦ elim (Option-cases (find_first_of separators xs)) [
    | inl e ↦ absurd (ground (arith, rw (absent, e) at h))
    | inr (k, e) ↦
        let next : i ≡ suc k = ground (arith, rw (absent, e) at h) in
        let index : suc k + 1 ≡ suc (k + 1) = omega arith in
        let (here, inside) = parts-some separators xs k e in
        rw (next, index, absent, here) (refl, omega arith)
  ]
]

split_rest_lem :
    (fuel : ℕ) (separators src : List ℕ)
    → length src < fuel
    → split_rest fuel separators src ≡ some (parts separators src)
unfolding split_rest
split_rest_lem zero separators src h = absurd (omega arith)
split_rest_lem (suc fuel) separators [] h = refl
split_rest_lem (suc fuel) separators (x ∷ xs) h =
    let more : ltb 0 (length (x ∷ xs)) ≡ true = ground arith in
    elim (Option-cases (find_first_of separators (x ∷ xs))) [
      | inl e ↦ rw (more, e, parts-none separators (x ∷ xs) e)
      | inr (i, e) ↦
          let (here, inside) = parts-some separators (x ∷ xs) i e in
          rw
            (
              more,
              e,
              here,
              split_rest_lem fuel separators (drop (i + 1) (x ∷ xs))
                  (omega (arith, length-drop (i + 1) (x ∷ xs))),
            )
            refl
    ]

-- Splitting always ends, and its tokens are the parts between the separators, empty ones among them.
pub split_lem : (src separators : List ℕ) → split src separators ≡ some (parts separators src)
unfolding split
split_lem src separators = elim (Option-cases (find_first_of separators src)) [
  | inl e ↦ rw (e, split, parts-none separators src e)
  | inr (i, e) ↦
      let (here, inside) = parts-some separators src i e in
      rw
        (
          e,
          split,
          here,
          split_rest_lem (length src) separators (drop (i + 1) src)
              (omega (arith, length-drop (i + 1) src)),
        )
        refl
]

-- The tokens with a separator in front of each.
abbrev spread : List ℕ → List (List ℕ) → List ℕ
spread separator [] = []
spread separator (token ∷ tokens) = separator ++ (token ++ spread separator tokens)

-- Behind a text, the loop puts a separator in front of each token.
join_loop_behind :
    (separator : List ℕ) (x : ℕ) (ret : List ℕ) (tokens : List (List ℕ))
    → join_loop separator (x ∷ ret) tokens ≡ (x ∷ ret) ++ spread separator tokens
unfolding join_loop
join_loop_behind separator x ret [] = sym (append-nil (x ∷ ret))
join_loop_behind separator x ret (token ∷ tokens) =
    let more : ltb 0 (length (x ∷ ret)) ≡ true = ground arith in
    rw more
      (join_loop_behind separator x ((ret ++ separator) ++ token) tokens ∙ simp (append_assoc))

-- `join` as its documentation has it: a separator between any two tokens.
abbrev pub intercalate : List ℕ → List (List ℕ) → List ℕ
intercalate separator [] = []
intercalate separator (token ∷ tokens) = token ++ spread separator tokens

abbrev pub drop_empty : List (List ℕ) → List (List ℕ)
drop_empty [] = []
drop_empty ([] ∷ tokens) = drop_empty tokens
drop_empty ((x ∷ token) ∷ tokens) = (x ∷ token) ∷ tokens

-- Joining puts the separator between the tokens, but for the empty ones in front, which are left out with the
-- separators behind them.
pub join_lem :
    (tokens : List (List ℕ)) (separator : List ℕ)
    → join tokens separator ≡ intercalate separator (drop_empty tokens)
unfolding join join_loop
join_lem [] separator = refl
join_lem ([] ∷ tokens) separator = join_lem tokens separator
join_lem ((x ∷ token) ∷ tokens) separator = join_loop_behind separator x token tokens

-- The text without the separators that it begins with.
abbrev pub drop_leading : ℕ → List ℕ → List ℕ
drop_leading separator [] = []
drop_leading separator (x ∷ xs) = if x == separator then drop_leading separator xs else x ∷ xs

some_part :
    (separators xs : List ℕ)
    → (token : List ℕ) × (tokens : List (List ℕ)) × (parts separators xs ≡ token ∷ tokens)
some_part separators [] = ([], [], refl)
some_part separators (x ∷ xs) = elim (Bool-cases (contains separators x)) [
  | inl here ↦ ([], parts separators xs, rw here)
  | inr absent ↦
      let (token, tokens, e) = some_part separators xs in (x ∷ token, tokens, rw (absent, e))
]

-- The parts spell the text.
pub intercalate-parts :
    (separator : ℕ) (xs : List ℕ) → intercalate (separator ∷ []) (parts (separator ∷ []) xs) ≡ xs
intercalate-parts separator [] = refl
intercalate-parts separator (x ∷ xs) =
    let (token, tokens, e) = some_part (separator ∷ []) xs in
    let whole : token ++ spread (separator ∷ []) tokens ≡ xs =
      ap (intercalate (separator ∷ [])) (sym e) ∙ intercalate-parts separator xs in
    elim (Bool-cases (contains (separator ∷ []) x)) [
      | inl here ↦
          let same : x ≡ separator = ground (arith, here) in
          rw (here, e) (ap (◌∷◌ separator) whole ∙ ap (λ (y : ℕ). y ∷ xs) (sym same))
      | inr absent ↦ rw (absent, e) (ap (◌∷◌ x) whole)
    ]

-- Splitting at one separator and joining with it gives the text back, without the separators that it
-- begins with.
pub join-split :
    (src : List ℕ) (separator : ℕ)
    → (tokens : List (List ℕ)) × (split src (separator ∷ []) ≡ some tokens)
      × (join tokens (separator ∷ []) ≡ drop_leading separator src)
join-split src separator = (
  parts (separator ∷ []) src,
  split_lem src (separator ∷ []),
  join_lem (parts (separator ∷ []) src) (separator ∷ []) ∙ leading src,
)
  where
    leading :
        (xs : List ℕ)
        → intercalate (separator ∷ []) (drop_empty (parts (separator ∷ []) xs))
          ≡ drop_leading separator xs
    leading [] = refl
    leading (x ∷ xs) = elim (Bool-cases (x == separator)) [
      | inl here ↦
          let found : contains (separator ∷ []) x ≡ true = ground (arith, here) in
          rw (found, here) (leading xs)
      | inr absent ↦
          let missed : contains (separator ∷ []) x ≡ false = ground (arith, absent) in
          let (token, tokens, e) = some_part (separator ∷ []) xs in
          let whole = ap (intercalate (separator ∷ [])) (sym e) ∙ intercalate-parts separator xs in
          rw (missed, absent, e) (ap (◌∷◌ x) whole)
    ]
