-- ===== src/Util/JsonMap/Count.antt =====
-- How many items `itemCount` finds in the text of a map.
use picolibs.Base.{
  ℕ, ◌+◌, ◌≡◌, refl, ap, ◌∙◌, false, List, [], ◌∷◌, ◌++◌, append_assoc, arith, ◌==◌, length,
}
use picolibs.Util.JsonMap.{
  Counting, opens, closes, count_char, count_chars, item_count, print_entries, from_map,
}

-- Characters that do not count, in or out of a string, and do not end the text.
unfoldable pub AllPlain : List ℕ → Type 0
AllPlain [] = Unit
AllPlain (c ∷ str) =
    (opens c ≡ false) × (closes c ≡ false) × ((c == 44) ≡ false) × ((c == 0) ≡ false) × AllPlain str

-- The keys and values of a map are plain.
unfoldable pub AllPlainEntries : List (List ℕ × List ℕ) → Type 0
AllPlainEntries [] = Unit
AllPlainEntries ((key, value) ∷ jmap) = AllPlain key × AllPlain value × AllPlainEntries jmap

-- The count at depth 1 behind a text.
counted : ℕ → ℕ → List ℕ → ℕ
counted ret before str =
    (count_chars str (record { ret = ret; depth = 1; quoted = false; before = before })).ret

counted-plain_char :
    (ret before c : ℕ) (str : List ℕ)
    → opens c ≡ false
    → closes c ≡ false
    → (c == 44) ≡ false
    → (c == 0) ≡ false
    → counted ret before (c ∷ str) ≡ counted ret c str
unfolding counted count_chars count_char
counted-plain_char ret before c str o k m z =
    rw (counted, count_chars, z) (ap (λ (t : Counting). (count_chars str t).ret) same)
  where
    same :
        count_char c (record { ret = ret; depth = 1; quoted = false; before = before })
        ≡ record { ret = ret; depth = 1; quoted = false; before = c }
    same = rw (count_char, o, k, m) (ground arith)

counted-comma :
    (ret before : ℕ) (str : List ℕ) → counted ret before (44 ∷ str) ≡ counted (ret + 1) 44 str
unfolding counted count_chars count_char
counted-comma ret before str = refl

counted-close : (ret before : ℕ) → counted ret before (125 ∷ []) ≡ ret
unfolding counted count_chars count_char
counted-close ret before = refl

-- The last character of a text, or the one before it.
last_of : ℕ → List ℕ → ℕ
last_of before [] = before
last_of before (c ∷ str) = last_of c str

counted-plain :
    (ret before : ℕ) (text str : List ℕ)
    → AllPlain text
    → counted ret before (text ++ str) ≡ counted ret (last_of before text) str
unfolding AllPlain last_of
counted-plain ret before [] str h = refl
counted-plain ret before (c ∷ text) str (o, k, m, z, h) =
    counted-plain_char ret before c (text ++ str) o k m z ∙ counted-plain ret c text str h

-- An entry behind its separator, and all that follows it.
entry : List ℕ → List ℕ → List ℕ → List ℕ
entry key value rest = key ++ ((34 ∷ 58 ∷ 34 ∷ []) ++ (value ++ (34 ∷ rest)))

entry-append :
    (key value rest end : List ℕ) → entry key value rest ++ end ≡ entry key value (rest ++ end)
unfolding entry
entry-append key value rest end =
    append_assoc key ((34 ∷ 58 ∷ 34 ∷ []) ++ (value ++ (34 ∷ rest))) end
    ∙ ap (λ (t : List ℕ). key ++ ((34 ∷ 58 ∷ 34 ∷ []) ++ t)) (append_assoc value (34 ∷ rest) end)

counted-entry :
    (ret before : ℕ) (key value rest : List ℕ)
    → AllPlain key
    → AllPlain value
    → counted ret before (entry key value rest) ≡ counted ret 34 rest
unfolding entry
counted-entry ret before key value rest k v =
    counted-plain ret before key _ k
    ∙ counted-plain_char ret _ 34 _ refl refl refl refl
    ∙ counted-plain_char ret 34 58 _ refl refl refl refl
    ∙ counted-plain_char ret 58 34 _ refl refl refl refl
    ∙ counted-plain ret 34 value _ v
    ∙ counted-plain_char ret _ 34 rest refl refl refl refl

counted-entries :
    (ret before : ℕ) (jmap : List (List ℕ × List ℕ))
    → AllPlainEntries jmap
    → counted ret before (print_entries (44 ∷ 34 ∷ []) jmap ++ (125 ∷ [])) ≡ ret + length jmap
unfolding print_entries AllPlainEntries entry
counted-entries ret before [] h = counted-close ret before ∙ omega arith
counted-entries ret before ((key, value) ∷ jmap) (k, v, h) =
    counted-comma ret before _
    ∙ counted-plain_char (ret + 1) 44 34 _ refl refl refl refl
    ∙ ap (counted (ret + 1) 34)
        (entry-append key value (print_entries (44 ∷ 34 ∷ []) jmap) (125 ∷ []))
    ∙ counted-entry (ret + 1) 34 key value _ k v
    ∙ counted-entries (ret + 1) 34 jmap h
    ∙ omega arith

-- In the text that `fromMap` makes of a map with entries, whose keys and values have no brackets, braces, commas or
-- null characters, `itemCount` finds one item for each entry and one for the object.
pub item_count-from_map :
    (key value : List ℕ) (jmap : List (List ℕ × List ℕ))
    → AllPlain key
    → AllPlain value
    → AllPlainEntries jmap
    → item_count ((from_map ((key, value) ∷ jmap)).1) ≡ length ((key, value) ∷ jmap) + 1
unfolding item_count from_map print_entries entry counted count_chars count_char
item_count-from_map key value jmap k v h =
    ap (counted 2 34) (entry-append key value (print_entries (44 ∷ 34 ∷ []) jmap) (125 ∷ []))
    ∙ counted-entry 2 34 key value _ k v
    ∙ counted-entries 2 34 jmap h
    ∙ omega arith

stopped :
    (ret before : ℕ) (str : List ℕ)
    → (count_chars str (record { ret = ret; depth = 0; quoted = false; before = before })).ret ≡ ret
unfolding count_chars
stopped ret before [] = refl
stopped ret before (c ∷ str) = refl

counted-stop : (ret before : ℕ) (str : List ℕ) → counted ret before (125 ∷ str) ≡ ret
unfolding counted count_chars count_char
counted-stop ret before str = stopped ret 125 str

counted-brace :
    (ret before : ℕ) (key value rest : List ℕ)
    → AllPlain key
    → counted ret before (entry key (125 ∷ value) rest) ≡ ret
unfolding entry
counted-brace ret before key value rest k =
    counted-plain ret before key _ k
    ∙ counted-plain_char ret _ 34 _ refl refl refl refl
    ∙ counted-plain_char ret 34 58 _ refl refl refl refl
    ∙ counted-plain_char ret 58 34 _ refl refl refl refl
    ∙ counted-stop ret 34 (value ++ (34 ∷ rest))

-- A closing brace inside a string ends the count: where the first value of a map begins with one, and its key has no
-- brackets, braces, commas or null characters, `itemCount` finds 2 items in the text of the map, however many entries follow.
pub item_count-brace :
    (key value : List ℕ) (jmap : List (List ℕ × List ℕ))
    → AllPlain key
    → item_count ((from_map ((key, 125 ∷ value) ∷ jmap)).1) ≡ 2
unfolding item_count from_map print_entries entry counted count_chars count_char
item_count-brace key value jmap k =
    ap (counted 2 34)
      (entry-append key (125 ∷ value) (print_entries (44 ∷ 34 ∷ []) jmap) (125 ∷ []))
    ∙ counted-brace 2 34 key value _ k
