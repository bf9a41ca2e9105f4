-- ===== src/Ir/Tests.antt =====
-- The theorems of ir/ at concrete messages and receivers.
mod Protocols
mod Devices
use picolibs.Base.{ℕ, zero, suc, ◌+◌, ◌<◌, ◌≡◌, List, [], ◌∷◌, arith}
use picolibs.Ir.Pulse.{Near}

-- A train of pulses that are all measured too long.
abbrev pub stretch : ℕ → List ℕ → List ℕ
stretch c [] = []
stretch c (t ∷ ts) = (t + c) ∷ stretch c ts

pub Near-stretch : (band c : ℕ) → c < band → (ts : List ℕ) → Near band (stretch c ts) ts
Near-stretch band c h [] = tt
Near-stretch band c h (t ∷ ts) = ((omega arith, omega arith), Near-stretch band c h ts)
