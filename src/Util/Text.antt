-- ===== src/Util/Text.antt =====
-- The static functions of `TXT` (util/txt.cpp) on `std::string`: substitution, tokens, white space.
pub mod Tokens
pub mod Trim
pub mod Find
use picolibs.Base.{
  ℕ, zero, suc, ◌+◌, Bool, true, false, not, ◌||◌, Option, none, some, List, [], ◌∷◌, ◌++◌, ltb,
  ◌==◌, if◌then◌else◌, ◌>>=◌, length, take, drop,
}
use picolibs.Util.Txt.{find_text}

-- `substitute` on a string: the answer, and the string.
unfoldable pub substitute : List ℕ → List ℕ → List ℕ → Bool × List ℕ
substitute target placeholder replacement = elim (find_text placeholder target) [
  | none ↦ (false, target)
  | some ii ↦ (true, take ii target ++ (replacement ++ drop (ii + length placeholder) target))
]

abbrev pub contains : List ℕ → ℕ → Bool
contains [] x = false
contains (c ∷ cs) x = x == c || contains cs x

-- `std::string::find_first_of`
unfoldable pub find_first_of : List ℕ → List ℕ → Option ℕ
find_first_of separators [] = none
find_first_of separators (x ∷ xs) =
    if contains separators x then some 0 else (do i ← find_first_of separators xs; some (suc i))

-- The loop of `split` on what is left behind a separator, with fuel.
unfoldable pub split_rest : ℕ → List ℕ → List ℕ → Option (List (List ℕ))
split_rest zero separators src = none
split_rest (suc fuel) separators src =
    if ltb 0 (length src)
    then elim (find_first_of separators src) [
      | none ↦ some (src ∷ [])
      | some i2 ↦ (do
        tokens ← split_rest fuel separators (drop (i2 + 1) src)
        some (take i2 src ∷ tokens))
    ]
    else some ([] ∷ [])

unfoldable pub split : List ℕ → List ℕ → Option (List (List ℕ))
split src separators = elim (find_first_of separators src) [
  | none ↦ some (src ∷ [])
  | some i2 ↦ (do
    tokens ← split_rest (length src) separators (drop (i2 + 1) src)
    some (take i2 src ∷ tokens))
]

-- The loop of `join`.
unfoldable pub join_loop : List ℕ → List ℕ → List (List ℕ) → List ℕ
join_loop separator ret [] = ret
join_loop separator ret (token ∷ tokens) =
    join_loop separator ((if ltb 0 (length ret) then ret ++ separator else ret) ++ token) tokens

unfoldable pub join : List (List ℕ) → List ℕ → List ℕ
join tokens separator = join_loop separator [] tokens

-- `" \t\r\n"`
abbrev pub white : List ℕ
white = 32 ∷ 9 ∷ 13 ∷ 10 ∷ []

-- `find_last_not_of` and `find_first_not_of` with these.
unfoldable pub find_last_not_white : List ℕ → Option ℕ
find_last_not_white [] = none
find_last_not_white (x ∷ xs) = elim (find_last_not_white xs) [
  | some i ↦ some (suc i)
  | none ↦ if contains white x then none else some 0
]

unfoldable pub find_first_not_white : List ℕ → Option ℕ
find_first_not_white [] = none
find_first_not_white (x ∷ xs) =
    if contains white x then (do i ← find_first_not_white xs; some (suc i)) else some 0

unfoldable pub trim_back : List ℕ → List ℕ
trim_back str = elim (find_last_not_white str) [ some ii ↦ take (ii + 1) str | none ↦ [] ]

unfoldable pub trim_front : List ℕ → List ℕ
trim_front str = elim (find_first_not_white str) [ some ii ↦ drop ii str | none ↦ [] ]
