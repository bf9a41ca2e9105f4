-- ===== src/Ir/Protocol.antt =====
-- The interface between the base receiver and a protocol: what the virtual functions `check_sync`
-- and `decode_message` of a subclass add to the base class.
use picolibs.Base.{ℕ, ◌<◌, ◌≡◌, Bool, false, Option, List, length, Returns}
use picolibs.Ir.Message.{Decoded}

pub record Protocol : Type 0 where
  -- The tests of the two pulses of the sync sequence, and that of the space of a repeat code.
  pub is_mark : ℕ → Bool
  pub is_space : ℕ → Bool
  pub is_repeat : ℕ → Bool
  -- The pulses of a whole message, and their decoder.
  pub message_len : ℕ
  pub decode : List ℕ → ℕ → Option Decoded
  pub message_long : 2 < message_len
  pub message_small : message_len < 65536
  pub decode_total :
      (pulses : List ℕ) → length pulses ≡ message_len → Returns (decode pulses message_len)

-- The test of a protocol without a repeat code.
unfoldable pub never_repeats : ℕ → Bool
never_repeats delta = false
