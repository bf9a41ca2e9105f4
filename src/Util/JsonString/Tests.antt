-- ===== src/Util/JsonString/Tests.antt =====
-- A text that does not fit into the data of a parser, and a text of two characters.
use picolibs.Base.{◌≡◌, some, [], ◌∷◌, arith}
use picolibs.Util.JsonString.{JsonString, in_json, str, set_text}
use picolibs.Util.JsonString.Assign.{str-set_text}

abbrev short : JsonString
short = record { string = some (65 ∷ 0 ∷ []); buflen = in_json 2 }

str-set_text_example : str (set_text (66 ∷ 67 ∷ []) short) ≡ some (66 ∷ 67 ∷ [])
str-set_text_example = str-set_text (66 ∷ 67 ∷ []) short (omega arith, (omega arith, tt)) tt
