-- ===== src/Util/DbgFlag.antt =====
-- `DBGFlag` (util/dbgflag.{h,cpp}): the flags that are typed in base 16. The bytes of `buf_` below `bufptr_` are a list; the
-- rest of it is never read. What is printed is left out.
pub mod Typing
mod Tests
use picolibs.Base.{
  ℕ, zero, suc, ◌+◌, ◌-◌, ◌*◌, ◌%◌, ◌^◌, Bool, true, false, not, ◌&&◌, ◌||◌, Option, none, some,
  List, [], ◌∷◌, ◌++◌, ltb, leb, ◌==◌, if◌then◌else◌, ◌>>=◌, bit_and, bit_or, bit_xor, u32, length,
}

-- The members of `DBGFlag` for the flags.
pub record DbgFlag : Type 0 where
  pub flags : ℕ
  pub typed : List ℕ

unfoldable pub enable : ℕ → DbgFlag
enable init_flags = record { flags = init_flags; typed = [] }

unfoldable pub disable : DbgFlag
disable = record { flags = 0; typed = [] }

-- `sizeof(buf_)`
abbrev pub buffer_size : ℕ
buffer_size = 32

-- `tolower` on the letters of ASCII
abbrev pub tolower : ℕ → ℕ
tolower c = if leb 65 c && leb c 90 then c + 32 else c

unfoldable pub hex_digit : ℕ → Option ℕ
hex_digit c =
    if leb 48 c && leb c 57
    then some (c - 48)
    else if leb 97 c && leb c 102
    then some (c - 97 + 10)
    else none

-- The loop over the digits; a character that is none makes the whole text invalid.
unfoldable pub read_mask : ℕ → List ℕ → Option ℕ
read_mask mask [] = some mask
read_mask mask (c ∷ text) = do
  digit ← hex_digit (tolower c)
  read_mask (bit_or (u32 (mask * 16)) digit) text

abbrev pub is_command : ℕ → Bool
is_command c = c == 61 || (c == 43 || c == 45)

-- The character of the command, `=` unless it is written, and its digits.
unfoldable pub command_of : List ℕ → ℕ × List ℕ
command_of [] = (61, [])
command_of (c ∷ text) = if is_command c then (c, text) else (61, c ∷ text)

unfoldable pub apply_mask : ℕ → ℕ → ℕ → ℕ
apply_mask cmdch mask flags =
    if cmdch == 61
    then mask
    else if cmdch == 43
    then bit_or flags mask
    else if cmdch == 45
    then bit_and flags (bit_xor mask (2 ^ 32 - 1))
    else flags

-- What follows a carriage return.
unfoldable pub run_command : DbgFlag → DbgFlag
run_command d = elim d.typed [
  | [] ↦ d
  | c ∷ text ↦
      let (cmdch, digits) = command_of (c ∷ text) in
      elim (read_mask 0 digits) [
        | none ↦ record d { typed = [] }
        | some mask ↦ record { flags = apply_mask cmdch mask d.flags; typed = [] }
      ]
]

-- `bufptr_ -= 1`
unfoldable pub drop_last : List ℕ → List ℕ
drop_last [] = []
drop_last (x ∷ []) = []
drop_last (x ∷ y ∷ xs) = x ∷ drop_last (y ∷ xs)

unfoldable pub char_avail : ℕ → DbgFlag → DbgFlag
char_avail ch d =
    if ch == 13
    then run_command d
    else if ch == 8
    then record d { typed = drop_last d.typed }
    else if ltb (length d.typed) buffer_size
    then record d { typed = d.typed ++ (ch ∷ []) }
    else d

-- The loop of `char_avail` over the characters that have come.
unfoldable pub chars_avail : List ℕ → DbgFlag → DbgFlag
chars_avail [] d = d
chars_avail (ch ∷ chars) d = chars_avail chars (char_avail ch d)
