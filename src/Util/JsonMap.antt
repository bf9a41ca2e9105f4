-- ===== src/Util/JsonMap.antt =====
-- `JSONMap` (util/jsonmap.{h,cpp}): a text of JSON with the properties that the parser finds in it, and the text of a map.
-- The parser, of tiny-json, is a parameter. The printed messages are left out.
pub mod Count
mod Tests
use picolibs.Base.{
  ℕ, zero, suc, ◌+◌, ◌-◌, Bool, true, false, not, ◌&&◌, ◌||◌, Option, none, some, List, [], ◌∷◌,
  ◌++◌, ltb, ◌==◌, if◌then◌else◌, ◌>>=◌, codes,
}

-- What the loop of `itemCount` keeps: the count, the depth, whether a string is open, and the character before.
pub record Counting : Type 0 where
  pub ret : ℕ
  pub depth : ℕ
  pub quoted : Bool
  pub before : ℕ

abbrev pub opens : ℕ → Bool
opens c = c == 123 || c == 91

abbrev pub closes : ℕ → Bool
closes c = c == 125 || c == 93

-- `quoted == true;` is a comparison, so a quote that opens a string changes nothing.
unfoldable pub count_char : ℕ → Counting → Counting
count_char c s =
    if not s.quoted && opens c
    then record s { ret = s.ret + 1; depth = s.depth + 1; before = c }
    else if not s.quoted && closes c
    then record s { depth = s.depth - 1; before = c }
    else if not s.quoted && c == 44
    then record s { ret = s.ret + 1; before = c }
    else if not s.quoted && c == 34
    then record s { before = c }
    else if s.quoted && (c == 34 && not (s.before == 92))
    then record s { quoted = false; before = c }
    else record s { before = c }

-- The loop ends at the null character that ends the text, or at one inside of it, or when the depth is 0.
unfoldable pub count_chars : List ℕ → Counting → Counting
count_chars [] s = s
count_chars (c ∷ str) s =
    let rest = count_chars str (count_char c s) in if ltb 0 s.depth && not (c == 0) then rest else s

unfoldable pub item_count : List ℕ → ℕ
item_count [] = 0
item_count (c ∷ str) =
    if opens c
    then (count_chars str (record { ret = 2; depth = 1; quoted = false; before = c })).ret
    else 0

-- The entries of a map, with what comes before each.
unfoldable pub print_entries : List ℕ → List (List ℕ × List ℕ) → List ℕ
print_entries sep [] = []
print_entries sep ((key, value) ∷ jmap) =
    sep ++ (key ++ ((34 ∷ 58 ∷ 34 ∷ []) ++ (value ++ (34 ∷ print_entries (44 ∷ 34 ∷ []) jmap))))

-- `fromMap`: the answer and the text.
unfoldable pub from_map : List (List ℕ × List ℕ) → Bool × List ℕ
from_map [] = (false, [])
from_map (entry ∷ jmap) = (true, print_entries (123 ∷ 34 ∷ []) (entry ∷ jmap) ++ (125 ∷ []))

-- The text, and the root that the parser has made of it.
pub record JsonMap (J : Type 0) : Type 0 where
  pub data_text : Option (List ℕ)
  pub json : Option J

unfoldable pub clear_map : {J : Type 0} → JsonMap J
clear_map = record { data_text = none; json = none }

-- `{}`
abbrev pub empty_object : List ℕ
empty_object = 123 ∷ 125 ∷ []

-- `json_create`, with the size of its pool.
module _ {J : Type 0} (json_create : List ℕ → ℕ → Option J) where
  unfoldable pub load : List ℕ → Bool × JsonMap J
  load text =
      let jsz = item_count text + 1 in
      elim (json_create text jsz) [
        | some root ↦ (true, record { data_text = some text; json = some root })
        | none ↦
            (false, record { data_text = some empty_object; json = json_create empty_object jsz })
      ]

  unfoldable pub load_string : List ℕ → Bool × JsonMap J
  load_string str = load str

  -- The file's text, if it can be opened.
  unfoldable pub load_file : Option (List ℕ) → Bool × JsonMap J
  load_file none = let (ret, jm) = load empty_object in (false, jm)
  load_file (some text) = load text

-- `json_getProperty`, and what one of its values is; without a root it reads through the null pointer.
module _ {J V : Type 0} (json_get : J → List ℕ → Option V) where
  unfoldable pub find_property : List ℕ → JsonMap J → Option (Option V)
  find_property name jm = do root ← jm.json; some (json_get root name)

  unfoldable pub has_property : List ℕ → JsonMap J → Option Bool
  has_property name jm = do
    prop ← find_property name jm
    some (elim prop [ none ↦ false | some v ↦ true ])

  -- `strValue`, `intValue`, `realValue` and `boolValue`, by the conversion of a value.
  unfoldable pub value_of : {A : Type 0} → (V → A) → List ℕ → A → JsonMap J → Option A
  value_of convert name default jm = do
    prop ← find_property name jm
    some (elim prop [ none ↦ default | some v ↦ convert v ])
