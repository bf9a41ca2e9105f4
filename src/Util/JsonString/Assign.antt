-- ===== src/Util/JsonString/Assign.antt =====
-- A text that is assigned is the text that is read.
use picolibs.Base.{
  ℕ, zero, suc, ◌+◌, ◌<◌, ◌≡◌, refl, inl, inr, true, false, Bool-cases, Option, none, some, List,
  [], ◌∷◌, ◌++◌, arith, ltb, leb, ◌==◌, length, length-append,
}
use picolibs.Util.Memory.{read, c_text, strncpy_bytes}
use picolibs.Util.Memory.Laws.{AllNonzero, c_text-append}
use picolibs.Util.JsonString.{
  BufLen, unassigned, in_json, on_heap, JsonString, cleared, str, heap_size, from_pointer, put_text,
  allocate, reuse_json, reuse_heap, fill_unassigned, set_text,
}

c_text-strncpy_bytes :
    (n : ℕ) (text : List ℕ)
    → AllNonzero text
    → length text < n
    → c_text (strncpy_bytes n text) ≡ some text
unfolding c_text strncpy_bytes
c_text-strncpy_bytes zero text h fits = absurd (omega arith)
c_text-strncpy_bytes (suc n) [] h fits = refl
c_text-strncpy_bytes (suc n) (x ∷ text) (positive, h) fits =
    let more : (x == 0) ≡ false = ground (arith, positive) in
    rw (more, more, c_text-strncpy_bytes n text h (omega (arith, fits))) refl

allocate-fits : (text : List ℕ) → AllNonzero text → str (allocate text) ≡ some text
unfolding allocate str
allocate-fits text h = c_text-strncpy_bytes (heap_size (length text)) text h (omega arith)

-- What is assigned to a string that has no buffer, or lost it because the text did not fit.
fill_unassigned-str :
    (text : List ℕ) → AllNonzero text → str (fill_unassigned text cleared) ≡ some text
unfolding fill_unassigned cleared str
fill_unassigned-str [] h = refl
fill_unassigned-str (x ∷ text) h =
    let some_text : ltb 0 (length (x ∷ text)) ≡ true = ground arith in
    rw some_text (allocate-fits (x ∷ text) h)

-- A string without a buffer points nowhere.
abbrev pub IsSound : Option (List ℕ) → BufLen → Type 0
IsSound string unassigned = string ≡ none
IsSound string (in_json n) = Unit
IsSound string (on_heap n) = Unit

set_text-cases :
    (text : List ℕ) (string : Option (List ℕ)) (buflen : BufLen)
    → AllNonzero text
    → IsSound string buflen
    → str (set_text text (record { string = string; buflen = buflen })) ≡ some text
unfolding set_text reuse_json reuse_heap fill_unassigned put_text cleared str
set_text-cases text string unassigned h sound = rw sound (fill_unassigned-str text h)
set_text-cases text string (in_json n) h sound = elim (Bool-cases (ltb (length text) n)) [
  | inl fits ↦ rw fits (c_text-strncpy_bytes n text h (ground (arith, fits)))
  | inr long ↦ rw long (fill_unassigned-str text h)
]
set_text-cases text string (on_heap n) h sound = elim (Bool-cases (ltb (length text) n)) [
  | inl fits ↦ rw fits (c_text-strncpy_bytes n text h (ground (arith, fits)))
  | inr long ↦ rw long (fill_unassigned-str text h)
]

-- A text that is assigned is the text that is read, whether the string had no buffer, one in the data of a parser or one of
-- its own, and whether the text fits into it.
pub str-set_text :
    (text : List ℕ) (js : JsonString)
    → AllNonzero text
    → IsSound js.string js.buflen
    → str (set_text text js) ≡ some text
str-set_text text js h sound = set_text-cases text js.string js.buflen h sound

-- The constructor from a text that ends with its terminator reads behind the text, unless the text and the terminator
-- fill the buffer.
pub from_pointer_faults :
    (text : List ℕ)
    → AllNonzero text
    → length text + 1 < heap_size (length text)
    → from_pointer (some (text ++ (0 ∷ []))) ≡ none
unfolding from_pointer read
from_pointer_faults text h short =
    let ends = c_text-append text [] h in
    let outside : leb (heap_size (length text)) (length (text ++ (0 ∷ []))) ≡ false =
      ground (arith, length-append text (0 ∷ []), short) in
    rw (from_pointer, ends, read, outside) refl
