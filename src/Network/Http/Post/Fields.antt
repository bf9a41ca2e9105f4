-- ===== src/Network/Http/Post/Fields.antt =====
-- Bodies of `application/x-www-form-urlencoded`.
use picolibs.Base.{
  ℕ, zero, suc, ◌+◌, ◌-◌, ◌<◌, ◌≤◌, ◌≡◌, refl, ap, Bool, true, false, Option, none, List, [], ◌∷◌,
  ◌++◌, arith, ltb, ◌==◌, length, length-take, length-drop, drop, take-append_eq, drop-append_eq,
}
use picolibs.Util.Text.Find.{Without}
use picolibs.Network.Http.{PostData}
use picolibs.Network.Http.Post.{urlencoded}
use picolibs.Network.Http.Multipart.{scan_to, span}

pub scan_to-Without : (c : ℕ) (xs : List ℕ) → Without (c ∷ []) xs → scan_to c xs ≡ length xs
scan_to-Without c [] h = refl
scan_to-Without c (x ∷ xs) (h, hs) =
    let other : (x == c) ≡ false = ground (arith, h) in rw other (ap suc (scan_to-Without c xs hs))

length-span :
    (ptr last : ℕ) (memory : List ℕ)
    → ptr ≤ last
    → last ≤ length memory
    → length (span ptr last memory) ≡ last - ptr
length-span ptr last memory h k =
    omega (arith, length-take (last - ptr) (drop ptr memory), length-drop ptr memory)

-- When no equals sign is left in a body that has not ended, the loop never does.
pub urlencoded-stuck :
    (sscanf_x : List ℕ → Option ℕ) (unset fuel last ptr : ℕ) (memory : List ℕ) (entries : PostData)
    (ret : Bool)
    → ptr < last
    → last ≤ length memory
    → Without (61 ∷ []) (span ptr last memory)
    → urlencoded sscanf_x unset fuel last ptr memory entries ret ≡ none
unfolding urlencoded
urlencoded-stuck sscanf_x unset zero last ptr memory entries ret more inside plain = refl
urlencoded-stuck sscanf_x unset (suc fuel) last ptr memory entries ret more inside plain =
    let left : ltb ptr last ≡ true = ground arith in
    let all = scan_to-Without 61 (span ptr last memory) plain in
    let size = length-span ptr last memory (omega arith) inside in
    let over : ltb (ptr + (last - ptr)) last ≡ false = ground arith in
    rw (urlencoded, left, all, size, over)
      (urlencoded-stuck sscanf_x unset fuel last ptr memory entries false more inside plain)

-- A body of fields: a key and a value each, still encoded.
abbrev pub print_fields : List (List ℕ × List ℕ) → List ℕ
print_fields [] = []
print_fields ((key, value) ∷ []) = key ++ (61 ∷ value)
print_fields ((key, value) ∷ fields) = key ++ (61 ∷ (value ++ (38 ∷ print_fields fields)))

-- Keys without equals signs, and values without ampersands.
abbrev pub AllFields : List (List ℕ × List ℕ) → Type 0
AllFields [] = Unit
AllFields ((key, value) ∷ fields) =
    Without (61 ∷ []) key × Without (38 ∷ []) value × AllFields fields

-- A pointer to a text, and the terminator behind it.
abbrev pub PointsTo : List ℕ → ℕ → List ℕ → Type 0
PointsTo memory place text =
    (pre post : List ℕ) × (memory ≡ pre ++ (text ++ (0 ∷ post))) × (place ≡ length pre)

pub scan_to-hit :
    (c : ℕ) (xs rest : List ℕ) → Without (c ∷ []) xs → scan_to c (xs ++ (c ∷ rest)) ≡ length xs
scan_to-hit c [] rest h = let same : (c == c) ≡ true = ground arith in rw same refl
scan_to-hit c (x ∷ xs) rest (h, hs) =
    let other : (x == c) ≡ false = ground (arith, h) in rw other (ap suc (scan_to-hit c xs rest hs))

-- What a body holds between its first index and its last.
pub span-append :
    (pre xs post : List ℕ) (ptr last : ℕ)
    → ptr ≡ length pre
    → last ≡ length pre + length xs
    → span ptr last (pre ++ (xs ++ post)) ≡ xs
span-append pre xs post ptr last start end =
    let size : last - ptr ≡ length xs = omega arith in
    rw (drop-append_eq ptr pre (xs ++ post) start) (take-append_eq (last - ptr) xs post size)
