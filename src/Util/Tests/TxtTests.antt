-- ===== src/Util/Tests/TxtTests.antt =====
-- A buffer of four bytes that holds two, `AB`, and texts.
use picolibs.Base.{
  ℕ, zero, suc, ◌<◌, ◌≡◌, refl, ap, ◌⊎◌, true, false, some, List, [], ◌∷◌, ◌++◌, arith, length,
  drop, replicate,
}
use picolibs.Util.Txt.{Txt, is_prefix, replace, substitute}
use picolibs.Util.Txt.Holds.{Holds}
use picolibs.Util.Txt.Edit.{replace_refines}
use picolibs.Util.Txt.Search.{substitute_refines}
use picolibs.Util.Text.{split, join}
use picolibs.Util.Text.Tokens.{join-split}

abbrev fresh : ℕ → List ℕ
fresh n = replicate n 7

length-fresh : (n : ℕ) → length (fresh n) ≡ n
length-fresh zero = refl
length-fresh (suc n) = ap suc (length-fresh n)

abbrev two : Txt
two = record { buffer = some (65 ∷ 66 ∷ 0 ∷ 9 ∷ []); bufsiz = 4; endptr = 2 }

two-Holds : Holds two (65 ∷ 66 ∷ [])
two-Holds = record { junk = 9 ∷ []; memory = refl; ends = refl; size = refl; small = omega arith }

replace_refines_example :
    (t' : Txt) × (replace fresh 0 1 (67 ∷ 68 ∷ 69 ∷ []) two ≡ some t')
    × Holds t' (67 ∷ 68 ∷ 69 ∷ 66 ∷ [])
replace_refines_example =
    replace_refines fresh length-fresh two [] (65 ∷ []) (66 ∷ []) (67 ∷ 68 ∷ 69 ∷ []) two-Holds
      (omega arith)

-- The placeholder `B` gives way to `xy`.
substitute_refines_example :
    (((j : ℕ) → is_prefix (66 ∷ []) (drop j (65 ∷ 66 ∷ [])) ≡ false)
      × (substitute fresh (66 ∷ []) (120 ∷ 121 ∷ []) two ≡ some (false, two)))
    ⊎ ((pre post : List ℕ) × (t' : Txt) × (65 ∷ 66 ∷ [] ≡ pre ++ ((66 ∷ []) ++ post))
        × ((j : ℕ) → j < length pre → is_prefix (66 ∷ []) (drop j (65 ∷ 66 ∷ [])) ≡ false)
        × (substitute fresh (66 ∷ []) (120 ∷ 121 ∷ []) two ≡ some (true, t'))
        × Holds t' (pre ++ ((120 ∷ 121 ∷ []) ++ post)))
substitute_refines_example =
    substitute_refines fresh length-fresh two (65 ∷ 66 ∷ []) (66 ∷ []) (120 ∷ 121 ∷ []) two-Holds
      (omega arith) (omega arith)

-- `,,a,b` loses its first two commas.
join-split_example :
    (tokens : List (List ℕ)) × (split (44 ∷ 44 ∷ 97 ∷ 44 ∷ 98 ∷ []) (44 ∷ []) ≡ some tokens)
    × (join tokens (44 ∷ []) ≡ 97 ∷ 44 ∷ 98 ∷ [])
join-split_example = join-split (44 ∷ 44 ∷ 97 ∷ 44 ∷ 98 ∷ []) 44

abbrev padded : List ℕ
padded = 32 ∷ 97 ∷ 32 ∷ 98 ∷ 10 ∷ []
