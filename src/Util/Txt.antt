-- ===== src/Util/Txt.antt =====
-- `TXT` (util/txt.{h,cpp}): a growing buffer of text with a terminator behind it. A `const char *`
-- is the list of the bytes in front of its terminator, a `std::string` that of its bytes; `none` is
-- an access outside a buffer, or through the null pointer.
pub mod Holds
pub mod Grow
pub mod Shrink
pub mod Edit
pub mod Search
use picolibs.Base.{
  ℕ, zero, suc, ◌+◌, ◌-◌, ◌*◌, ◌/◌, Bool, true, false, ◌&&◌, Option, none, some, List, [], ◌∷◌,
  ◌++◌, ltb, leb, ◌==◌, if◌then◌else◌, ◌>>=◌, u32, sub32, length, take, drop,
}
use picolibs.Util.Memory.{store, read, write, move_up, move_down, c_text, strncpy_bytes}

-- The members of `TXT`. `buffer` is the null pointer or an array.
pub record Txt : Type 0 where
  pub buffer : Option (List ℕ)
  pub bufsiz : ℕ
  pub endptr : ℕ

-- `TXT()`, and what `release` leaves.
abbrev pub unallocated : Txt
unallocated = record { buffer = none; bufsiz = 0; endptr = 0 }

-- The search of `strstr` and of `std::string::find`.
abbrev pub is_prefix : List ℕ → List ℕ → Bool
is_prefix [] xs = true
is_prefix (p ∷ ps) [] = false
is_prefix (p ∷ ps) (x ∷ xs) = p == x && is_prefix ps xs

unfoldable pub find_text : List ℕ → List ℕ → Option ℕ
find_text p [] = if is_prefix p [] then some 0 else none
find_text p (x ∷ xs) =
    if is_prefix p (x ∷ xs) then some 0 else (do i ← find_text p xs; some (suc i))

-- `fresh n` is what `new char[n]` holds.
module _ (fresh : ℕ → List ℕ) where
  -- `TXT(size)`
  unfoldable pub sized : ℕ → Option Txt
  sized size =
      if ltb 0 size
      then (do
        memory ← store (fresh size) 0 0
        some (record { buffer = some memory; bufsiz = size; endptr = 0 }))
      else some (record { buffer = some (fresh size); bufsiz = size; endptr = 0 })

  -- `TXT(data, datalen, size)`
  unfoldable pub from_text : List ℕ → ℕ → ℕ → Option Txt
  from_text text datalen size =
      let size' = (if leb size datalen then u32 (u32 (datalen + 256) / 256 * 256) else size) in
      (do
        memory ← write (fresh size') 0 (strncpy_bytes datalen text)
        memory' ← store memory datalen 0
        some (record { buffer = some memory'; bufsiz = size'; endptr = datalen }))

  -- The reallocation of `expand`.
  unfoldable pub grow : ℕ → Txt → Option Txt
  grow amount t =
      if leb t.bufsiz (u32 (t.endptr + amount))
      then (let newsz = u32 (u32 (u32 (t.endptr + amount) + 2048) / 2048 * 2048) in
          (do
            memory ← t.buffer
            bytes ← read (t.endptr + 1) memory
            newbuf ← write (fresh newsz) 0 bytes
            some (record t { buffer = some newbuf; bufsiz = newsz })))
      else some t

  unfoldable pub expand : ℕ → ℕ → Txt → Option Txt
  expand offset amount t = do
    t' ← grow amount t
    memory ← t'.buffer
    memory1 ← move_up (sub32 t'.endptr offset) t'.endptr (t'.endptr + amount) memory
    memory2 ← store memory1 (u32 (t'.endptr + amount)) 0
    some (record t' { buffer = some memory2; endptr = u32 (t'.endptr + amount) })

-- The bytes go to an index, and a terminator to the end.
unfoldable pub put : ℕ → List ℕ → Txt → Option Txt
put i bytes t = do
  memory ← t.buffer
  memory1 ← write memory i bytes
  memory2 ← store memory1 t.endptr 0
  some (record t { buffer = some memory2 })

unfoldable pub contract : ℕ → ℕ → Txt → Option Txt
contract offset amount t = do
  memory ← t.buffer
  memory1 ← move_down (sub32 (sub32 t.endptr offset) amount) (offset + amount) offset memory
  memory2 ← store memory1 (sub32 t.endptr amount) 0
  some (record t { buffer = some memory2; endptr = sub32 t.endptr amount })

module _ (fresh : ℕ → List ℕ) where
  -- `operator =`, for both kinds of text
  unfoldable pub assign : List ℕ → Txt → Option Txt
  assign text t = do
    t' ← expand fresh 0 (length text) (record t { endptr = 0 })
    put 0 (strncpy_bytes (length text) text) t'

  -- `operator +=` of a `const char *`
  unfoldable pub append_text : List ℕ → Txt → Option Txt
  append_text text t = do
    t' ← expand fresh t.endptr (length text) t
    put t.endptr (strncpy_bytes (length text) text) t'

  -- `operator +=` of a `std::string`
  unfoldable pub append_string : List ℕ → Txt → Option Txt
  append_string text t = do t' ← expand fresh t.endptr (length text) t; put t.endptr text t'

  -- `str` points to an array; its text is as long as `len`, or ends with a terminator if that is 0.
  unfoldable pub insert : ℕ → List ℕ → ℕ → Txt → Option (ℕ × Txt)
  insert offset str len t = do
    text ← (if len == 0 then c_text str else read len str)
    t1 ← expand fresh offset (length text) t
    t2 ← put offset text t1
    some (u32 (offset + length text), t2)

  -- The part of `replace` that fits the size.
  unfoldable pub resize : ℕ → ℕ → ℕ → Txt → Option Txt
  resize offset size lr t =
      if ltb size lr
      then expand fresh (offset + size) (lr - size) t
      else if ltb lr size
      then contract (offset + lr) (size - lr) t
      else some t

  unfoldable pub replace : ℕ → ℕ → List ℕ → Txt → Option Txt
  replace offset size replacement t = do
    t' ← resize offset size (length replacement) t
    memory ← t'.buffer
    memory' ← write memory offset replacement
    some (record t' { buffer = some memory' })

  -- What `substitute` does with the answer of `strstr`.
  unfoldable pub substitute_at : List ℕ → List ℕ → Txt → Option ℕ → Option (Bool × Txt)
  substitute_at placeholder replacement t none = some (false, t)
  substitute_at placeholder replacement t (some offset) = do
    t' ← replace offset (length placeholder) replacement t
    some (true, t')

  -- `substitute` of a text
  unfoldable pub substitute : List ℕ → List ℕ → Txt → Option (Bool × Txt)
  substitute placeholder replacement t = do
    memory ← t.buffer
    text ← c_text memory
    substitute_at placeholder replacement t (find_text placeholder text)

-- `find`: `none` inside stands for `npos`.
unfoldable pub find : List ℕ → Txt → Option (Option ℕ)
find str t = do memory ← t.buffer; text ← c_text memory; some (find_text str text)
