-- ===== src/Util/Txt/Holds.antt =====
-- The abstract view of a `TXT`: the text that it holds.
use picolibs.Base.{ℕ, ◌≡◌, ◌<◌, ◌^◌, some, List, ◌∷◌, ◌++◌, length}
use picolibs.Util.Txt.{Txt}

-- An allocated buffer holds the text, a terminator, and unused bytes.
pub record Holds (t : Txt) (text : List ℕ) : Type 0 where
  pub junk : List ℕ
  pub memory : t.buffer ≡ some (text ++ (0 ∷ junk))
  pub ends : t.endptr ≡ length text
  pub size : t.bufsiz ≡ length (text ++ (0 ∷ junk))
  pub small : t.bufsiz < 2 ^ 32

-- The same with any byte behind the text.
pub record HasRoom (t : Txt) (text : List ℕ) : Type 0 where
  pub next : ℕ
  pub junk : List ℕ
  pub memory : t.buffer ≡ some (text ++ (next ∷ junk))
  pub ends : t.endptr ≡ length text
  pub size : t.bufsiz ≡ length (text ++ (next ∷ junk))
  pub small : t.bufsiz < 2 ^ 32

pub Holds-HasRoom : (t : Txt) (text : List ℕ) → Holds t text → HasRoom t text
Holds-HasRoom t text h = record {
  next = 0;
  junk = h.junk;
  memory = h.memory;
  ends = h.ends;
  size = h.size;
  small = h.small;
}

-- The memory that is new has the size that was asked for.
abbrev pub Allocates : (ℕ → List ℕ) → Type 0
Allocates fresh = (n : ℕ) → length (fresh n) ≡ n
