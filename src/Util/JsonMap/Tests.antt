-- ===== src/Util/JsonMap/Tests.antt =====
-- Two maps, of which the second has a brace in a value.
use picolibs.Base.{ℕ, ◌+◌, ◌≡◌, refl, List, [], ◌∷◌, length, codes}
use picolibs.Util.JsonMap.{item_count, from_map}
use picolibs.Util.JsonMap.Count.{AllPlain, AllPlainEntries, item_count-from_map, item_count-brace}

abbrev others : List (List ℕ × List ℕ)
others = (codes "b", codes "2") ∷ (codes "c", codes "") ∷ []

plain_key : AllPlain (codes "a")
unfolding AllPlain
plain_key = (refl, refl, refl, refl, tt)

plain_others : AllPlainEntries others
unfolding AllPlainEntries AllPlain
plain_others = (
  (refl, refl, refl, refl, tt),
  (refl, refl, refl, refl, tt),
  ((refl, refl, refl, refl, tt), tt, tt),
)

item_count-from_map_example :
    item_count ((from_map ((codes "a", codes "a") ∷ others)).1)
    ≡ length ((codes "a", codes "a") ∷ others) + 1
item_count-from_map_example =
    item_count-from_map (codes "a") (codes "a") others plain_key plain_key plain_others

item_count-brace_example : item_count ((from_map ((codes "a", codes "}") ∷ others)).1) ≡ 2
item_count-brace_example = item_count-brace (codes "a") [] others plain_key
