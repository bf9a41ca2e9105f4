-- ===== src/Ir/Message.antt =====
-- What the static `decode` functions of the receivers return: the result, and the two values that
-- they store through their reference arguments.
use picolibs.Base.{ℕ, Bool, false, ◌||◌, ◌==◌, Option, some}

pub record Decoded : Type 0 where
  pub accepted : Bool
  pub addr : ℕ
  pub func : ℕ

-- `return false` after `addr = 0; func = 0;`. An outer `none` is a read outside the pulse array.
abbrev pub rejected : Option Decoded
rejected = some (record { accepted = false; addr = 0; func = 0 })

-- `addr == address || address == 0xffff`
abbrev pub responds : ℕ → ℕ → Bool
responds addr address = addr == address || address == 0xffff
