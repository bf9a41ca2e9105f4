-- ===== src/Util/JsonString.antt =====
-- `JSONString` (util/jsonstring.{h,cpp}): a text in a buffer of its own, or in the data of a parser. A buffer is its bytes,
-- and reading past them is `none`. The value of an item of JSON is an argument.
pub mod Assign
mod Tests
use picolibs.Base.{
  ℕ, zero, suc, ◌+◌, ◌*◌, ◌/◌, Bool, true, false, Option, none, some, List, [], ◌∷◌, ◌++◌, ltb,
  ◌==◌, if◌then◌else◌, ◌>>=◌, length,
}
use picolibs.Util.Memory.{read, c_text, strncpy_bytes}

-- `buflen_`: 0, the size of a text in a parser's data, with its sign changed, or the size of a buffer on the heap.
pub data BufLen : Type 0 where
  unassigned : BufLen
  in_json : ℕ → BufLen
  on_heap : ℕ → BufLen

-- The members of `JSONString`.
pub record JsonString : Type 0 where
  pub string : Option (List ℕ)
  pub buflen : BufLen

unfoldable pub cleared : JsonString
cleared = record { string = none; buflen = unassigned }

-- `str`
unfoldable pub str : JsonString → Option (List ℕ)
str js = elim js.string [ none ↦ some [] | some memory ↦ c_text memory ]

-- The size of a buffer for so many characters.
abbrev pub heap_size : ℕ → ℕ
heap_size ll = (ll + 32) / 32 * 32

-- The constructor from a pointer, with the bytes behind it; `memcpy` reads the size of the buffer.
unfoldable pub from_pointer : Option (List ℕ) → Option JsonString
from_pointer none = do
  bytes ← read (heap_size 0) (0 ∷ [])
  some (record { string = some bytes; buflen = on_heap (heap_size 0) })
from_pointer (some source) = do
  text ← c_text source
  bytes ← read (heap_size (length text)) source
  some (record { string = some bytes; buflen = on_heap (heap_size (length text)) })

-- `operator =` of another `JSONString`
unfoldable pub copy_of : JsonString → Option JsonString
copy_of other = elim other.buflen [
  | unassigned ↦ some other
  | in_json n ↦ some other
  | on_heap n ↦ (do
    memory ← other.string
    bytes ← read n memory
    some (record { string = some bytes; buflen = on_heap n }))
]

-- `operator =` of an item of JSON, with the bytes of its value unless there is none, or it is an array or an object.
unfoldable pub from_json : Option (List ℕ) → Option JsonString
from_json none = some cleared
from_json (some value) = do
  text ← c_text value
  some (record { string = some value; buflen = in_json (length text + 1) })

-- A text in a buffer of so many bytes, if it fits.
unfoldable pub put_text : ℕ → List ℕ → JsonString → JsonString
put_text n text js =
    if ltb (length text) n then record js { string = some (strncpy_bytes n text) } else cleared

unfoldable pub allocate : List ℕ → JsonString
allocate text =
    let n = heap_size (length text) in
    record { string = some (strncpy_bytes n text); buflen = on_heap n }

-- The steps of `operator =` of a text, by the size at each.
unfoldable pub reuse_json : List ℕ → JsonString → JsonString
reuse_json text js = elim js.buflen [
  | unassigned ↦ js
  | in_json n ↦ put_text n text js
  | on_heap n ↦ js
]

unfoldable pub reuse_heap : List ℕ → JsonString → JsonString
reuse_heap text js = elim js.buflen [
  | unassigned ↦ js
  | in_json n ↦ js
  | on_heap n ↦ put_text n text js
]

unfoldable pub fill_unassigned : List ℕ → JsonString → JsonString
fill_unassigned text js = elim js.buflen [
  | unassigned ↦ if ltb 0 (length text) then allocate text else js
  | in_json n ↦ js
  | on_heap n ↦ js
]

unfoldable pub set_text : List ℕ → JsonString → JsonString
set_text text js = fill_unassigned text (reuse_heap text (reuse_json text js))
