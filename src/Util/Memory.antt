-- ===== src/Util/Memory.antt =====
-- An array of bytes as the code touches it: `none` is an access outside the array. `memcpy` and
-- `strncpy` are those of the C library.
pub mod Laws
use picolibs.Base.{
  ℕ, zero, suc, ◌+◌, Option, none, some, List, [], ◌∷◌, ltb, leb, ◌==◌, if◌then◌else◌, ◌>>=◌,
  get_elem?, set, length, take, replicate,
}

-- `p[i] = v`
unfoldable pub store : List ℕ → ℕ → ℕ → Option (List ℕ)
store memory i v = if ltb i (length memory) then some (set memory i v) else none

-- The first `n` bytes.
unfoldable pub read : ℕ → List ℕ → Option (List ℕ)
read n memory = if leb n (length memory) then some (take n memory) else none

-- A copy of bytes to an index.
unfoldable pub write : List ℕ → ℕ → List ℕ → Option (List ℕ)
write memory i [] = some memory
write memory i (x ∷ xs) = do memory' ← store memory i x; write memory' (i + 1) xs

-- `*--dst = *--src`, with the rounds left.
unfoldable pub move_up : ℕ → ℕ → ℕ → List ℕ → Option (List ℕ)
move_up zero src dst memory = some memory
move_up (suc left) zero dst memory = none
move_up (suc left) (suc src) zero memory = none
move_up (suc left) (suc src) (suc dst) memory = do
  x ← get_elem? memory src
  memory' ← store memory dst x
  move_up left src dst memory'

-- `*dst++ = *src++`, with the rounds left.
unfoldable pub move_down : ℕ → ℕ → ℕ → List ℕ → Option (List ℕ)
move_down zero src dst memory = some memory
move_down (suc left) src dst memory = do
  x ← get_elem? memory src
  memory' ← store memory dst x
  move_down left (src + 1) (dst + 1) memory'

-- The text in front of the terminator; without one, a reader runs out of the array.
unfoldable pub c_text : List ℕ → Option (List ℕ)
c_text [] = none
c_text (x ∷ xs) = if x == 0 then some [] else (do rest ← c_text xs; some (x ∷ rest))

-- The `n` bytes that `strncpy` writes: those up to a terminator, then zeros.
unfoldable pub strncpy_bytes : ℕ → List ℕ → List ℕ
strncpy_bytes zero xs = []
strncpy_bytes (suc n) [] = replicate (suc n) 0
strncpy_bytes (suc n) (x ∷ xs) = if x == 0 then replicate (suc n) 0 else x ∷ strncpy_bytes n xs
