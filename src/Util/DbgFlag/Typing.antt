-- ===== src/Util/DbgFlag/Typing.antt =====
-- What typing does to the flags.
use picolibs.Base.{
  ℕ, ◌+◌, ◌-◌, ◌*◌, ◌≤◌, ◌<◌, ◌≡◌, false, List, [], ◌∷◌, arith, ltb, ◌==◌, if◌then◌else◌, max,
  length, length-append,
}
use picolibs.Bits.{bit}
use picolibs.Util.DbgFlag.{DbgFlag, command_of, run_command, drop_last, char_avail, chars_avail}

-- The character of a digit, and the number that digits write.
abbrev pub digit_char : ℕ → ℕ
digit_char d = if ltb d 10 then 48 + d else 87 + d

abbrev pub hex_value : ℕ → List ℕ → ℕ
hex_value v [] = v
hex_value v (d ∷ digits) = hex_value (v * 16 + d) digits

abbrev pub AllDigits : List ℕ → Type 0
AllDigits [] = Unit
AllDigits (d ∷ digits) = (d < 16) × AllDigits digits

length-drop_last : (xs : List ℕ) → length (drop_last xs) ≤ length xs
unfolding drop_last
length-drop_last [] = omega arith
length-drop_last (x ∷ []) = omega arith
length-drop_last (x ∷ y ∷ xs) = omega (arith, length-drop_last (y ∷ xs))

run_command-typed : (d : DbgFlag) → (run_command d).typed ≡ []
unfolding run_command command_of
run_command-typed d = ground arith

char_avail_bound :
    (ch : ℕ) (d : DbgFlag) → length d.typed ≤ 32 → length (char_avail ch d).typed ≤ 32
unfolding char_avail
char_avail_bound ch d h =
    ground (arith, run_command-typed d, length-drop_last d.typed, length-append d.typed (ch ∷ []))

-- However many characters come, no more than the 32 of the buffer are stored.
pub chars_avail_bound :
    (chars : List ℕ) (d : DbgFlag) → length d.typed ≤ 32 → length (chars_avail chars d).typed ≤ 32
unfolding chars_avail
chars_avail_bound [] d h = h
chars_avail_bound (ch ∷ chars) d h =
    chars_avail_bound chars (char_avail ch d) (char_avail_bound ch d h)

-- Characters that are stored.
AllPlain : List ℕ → Type 0
AllPlain [] = Unit
AllPlain (ch ∷ chars) = ((ch == 13) ≡ false) × ((ch == 8) ≡ false) × AllPlain chars

-- What a command makes of a bit of the flags and a bit of the number.
abbrev pub command_bit : (cmdch flag bit : ℕ) → ℕ
command_bit cmdch flag bit =
    if cmdch == 61 then bit else if cmdch == 43 then max flag bit else flag - bit
