-- ===== src/Util/Text/Find.antt =====
-- What the searches of `TXT` (util/txt.cpp) and of `std::string` find behind characters that are not looked for.
use picolibs.Base.{
  ℕ, ◌≡◌, refl, true, false, none, some, List, [], ◌∷◌, ◌++◌, arith, ◌==◌, ==_iff, length,
}
use picolibs.Util.Txt.{find_text, is_prefix}
use picolibs.Util.Text.{contains, find_first_of}

-- No character of the text is one of these.
abbrev pub Without : List ℕ → List ℕ → Type 0
Without chars [] = Unit
Without chars (x ∷ xs) = (contains chars x ≡ false) × Without chars xs

pub Without-append :
    (chars xs ys : List ℕ) → Without chars xs → Without chars ys → Without chars (xs ++ ys)
Without-append chars [] ys h k = k
Without-append chars (x ∷ xs) ys (h, hs) k = (h, Without-append chars xs ys hs k)

pub find_first_of-Without :
    (chars pre : List ℕ) (c : ℕ) (rest : List ℕ)
    → Without chars pre
    → contains chars c ≡ true
    → find_first_of chars (pre ++ (c ∷ rest)) ≡ some (length pre)
unfolding find_first_of
find_first_of-Without chars [] c rest h k = rw k
find_first_of-Without chars (x ∷ pre) c rest (h, hs) k =
    rw (h, find_first_of-Without chars pre c rest hs k)

pub find_first_of-none : (chars xs : List ℕ) → Without chars xs → find_first_of chars xs ≡ none
unfolding find_first_of
find_first_of-none chars [] h = refl
find_first_of-none chars (x ∷ xs) (h, hs) = rw (h, find_first_of-none chars xs hs)

pub is_prefix-append : (p rest : List ℕ) → is_prefix p (p ++ rest) ≡ true
is_prefix-append [] rest = refl
is_prefix-append (x ∷ p) rest =
    let same : (x == x) ≡ true = (==_iff x x).1 refl in rw (same, is_prefix-append p rest)

-- A text that begins with a character that is not among those in front of it.
pub find_text-Without :
    (pre : List ℕ) (c : ℕ) (p rest : List ℕ)
    → Without (c ∷ []) pre
    → find_text (c ∷ p) (pre ++ ((c ∷ p) ++ rest)) ≡ some (length pre)
unfolding find_text
find_text-Without [] c p rest h = rw (is_prefix-append (c ∷ p) rest)
find_text-Without (x ∷ pre) c p rest (h, hs) =
    let other : (c == x) ≡ false = ground (arith, h) in
    rw (other, find_text-Without pre c p rest hs)
