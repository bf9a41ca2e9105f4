-- ===== src/Network/Http/Multipart.antt =====
-- Bodies of `multipart/form-data` (network/httprequest.cpp, `get_post_multipart`): parts between boundaries, with
-- headers and a value each. `memory` is the storage of the request's string, and a body ends at index `last`.
use picolibs.Base.{
  ℕ, zero, suc, ◌+◌, ◌-◌, Bool, true, false, ◌&&◌, Option, none, some, List, [], ◌∷◌, ◌++◌, ltb,
  leb, ◌==◌, if◌then◌else◌, ◌>>=◌, length, take, drop, get_elem?,
}
use picolibs.Util.Memory.{store}
use picolibs.Util.Txt.{find_text}
use picolibs.Network.Http.{PostData, insert_entry, find_any_at, c_str, same_text, same_name}

-- The index of a character, or the end.
abbrev pub scan_to : ℕ → List ℕ → ℕ
scan_to c [] = 0
scan_to c (x ∷ xs) = if x == c then 0 else suc (scan_to c xs)

abbrev pub span : ℕ → ℕ → List ℕ → List ℕ
span ptr last memory = take (last - ptr) (drop ptr memory)

-- The variables of `get_post_multipart` that its loops change.
pub record Scan : Type 0 where
  pub memory : List ℕ
  pub entries : PostData
  pub line : List ℕ
  pub lp : ℕ
  pub ptr : ℕ

-- The next line, up to a carriage return.
unfoldable pub next_line : ℕ → Scan → Scan
next_line last s =
    let raw = span s.ptr last s.memory in
    let n = scan_to 13 raw in
    record s {
      line = take n raw;
      lp = s.ptr;
      ptr = if ltb (s.ptr + n + 1) last then s.ptr + n + 2 else last;
    }

-- `name="`, `filename="`, `.filename`, `Content-Disposition:`, `--`
abbrev pub name_is : List ℕ
name_is = 110 ∷ 97 ∷ 109 ∷ 101 ∷ 61 ∷ 34 ∷ []

abbrev pub filename_is : List ℕ
filename_is = 102 ∷ 105 ∷ 108 ∷ 101 ∷ name_is

abbrev pub dot_filename : List ℕ
dot_filename = 46 ∷ 102 ∷ 105 ∷ 108 ∷ 101 ∷ 110 ∷ 97 ∷ 109 ∷ 101 ∷ []

abbrev pub content_disposition : List ℕ
content_disposition =
    67 ∷ 111 ∷ 110 ∷ 116 ∷ 101 ∷ 110 ∷ 116 ∷ 45 ∷ 68 ∷ 105 ∷ 115 ∷ 112 ∷ 111 ∷ 115 ∷ 105 ∷ 116 ∷ 105
    ∷ 111 ∷ 110 ∷ 58 ∷ []

-- The first and the last index of a quoted text behind what introduces it.
unfoldable pub quoted : List ℕ → List ℕ → Option (ℕ × ℕ)
quoted intro line = do
  i ← find_text intro line
  i2 ← find_any_at (34 ∷ []) (i + length intro) line
  some (i + length intro, i2)

-- What a header of a part says of its key and its file.
unfoldable pub disposition : List ℕ → Scan → Option (List ℕ × Scan)
disposition key s =
    let key' : List ℕ = elim (quoted name_is s.line) [
      | none ↦ key
      | some (i1, i2) ↦ take (i2 - i1) (drop i1 s.line)
    ] in
    elim (quoted filename_is s.line) [
      | none ↦ some (key', s)
      | some (i1, i2) ↦ (do
        memory' ← store s.memory (s.lp + i2) 0
        some (
          key',
          record s {
            memory = memory';
            entries = insert_entry (key' ++ dot_filename) (s.lp + i1) s.entries;
          },
        ))
    ]

-- The headers of a part.
unfoldable pub part_headers : ℕ → ℕ → List ℕ → Scan → Option (List ℕ × Scan)
part_headers zero last key s = none
part_headers (suc fuel) last key s = elim (ltb s.ptr last && ltb 0 (length s.line)) [
  | false ↦ some (key, s)
  | true ↦ (do
    (key', s') ←
        (if same_name (take 20 (c_str s.line)) content_disposition
          then disposition key s
          else some (key, s))
    part_headers fuel last key' (next_line last s'))
]

-- `while (cp < end && *cp != '\r' && *(cp + 1) == '\n') cp++`, with the characters left.
unfoldable pub skip_to : ℕ → List ℕ → ℕ → Option ℕ
skip_to zero memory cp = some cp
skip_to (suc left) memory cp = do
  x ← get_elem? memory cp
  if x == 13 then some cp else (do
    y ← get_elem? memory (cp + 1)
    elim (y == 10) [ true ↦ skip_to left memory (cp + 1) | false ↦ some cp ])

-- `strncmp` of the first `n` characters
abbrev pub same_front : ℕ → List ℕ → List ℕ → Bool
same_front n a b = same_text (take n (c_str a)) (take n (c_str b))

-- The value of a part, which begins at `value`.
unfoldable pub part_value : ℕ → ℕ → List ℕ → List ℕ → ℕ → Scan → Option Scan
part_value zero last boundary key value s = none
part_value (suc fuel) last boundary key value s = elim (ltb s.ptr last) [
  | false ↦ some s
  | true ↦ (do
    cp ← skip_to (last - s.ptr) s.memory s.ptr
    let ptr' = if ltb cp last then cp + 1 else last
    elim (same_front (length boundary) (drop ptr' s.memory) boundary) [
      | true ↦ (do
        memory' ← (if leb 2 ptr' then store s.memory (ptr' - 2) 0 else none)
        some (
            next_line last (record s {
              memory = memory';
              entries = insert_entry key value s.entries;
              ptr = ptr';
            })))
      | false ↦ part_value fuel last boundary key value (record s { ptr = ptr' })
    ])
]

-- The parts, while their boundary is in front.
unfoldable pub multipart : ℕ → ℕ → List ℕ → Scan → Option Scan
multipart zero last boundary s = none
multipart (suc fuel) last boundary s = elim (ltb s.ptr last && same_text s.line boundary) [
  | false ↦ some s
  | true ↦ (do
    (key, s1) ← part_headers (suc last) last [] (next_line last s)
    s2 ← part_value (suc last) last boundary key s1.ptr s1
    multipart fuel last boundary s2)
]

-- `boundary=`
abbrev pub boundary_is : List ℕ
boundary_is = 98 ∷ 111 ∷ 117 ∷ 110 ∷ 100 ∷ 97 ∷ 114 ∷ 121 ∷ 61 ∷ []

unfoldable pub boundary_of : List ℕ → List ℕ
boundary_of content_type = elim (find_text boundary_is content_type) [
  | none ↦ []
  | some i ↦ elim (find_any_at (59 ∷ 32 ∷ 13 ∷ 10 ∷ []) (i + 9) content_type) [
    | none ↦ drop (i + 9) content_type
    | some i2 ↦ take (i2 - (i + 9)) (drop (i + 9) content_type)
  ]
]

-- `get_post_multipart`. Its first loop does not run, since `line` is still empty.
unfoldable pub get_post_multipart :
    List ℕ → ℕ → ℕ → List ℕ → PostData → Option (List ℕ × PostData × Bool)
get_post_multipart content_type last start memory entries =
    let boundary = boundary_of content_type in
    if ltb 0 (length boundary)
    then (do
      s ← multipart (suc last) last (45 ∷ 45 ∷ boundary) (
          next_line last
            (record { memory = memory; entries = entries; line = []; lp = start; ptr = start }))
      some (s.memory, s.entries, true))
    else some (memory, entries, false)
