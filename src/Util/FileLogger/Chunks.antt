-- ===== src/Util/FileLogger/Chunks.antt =====
-- The lines that are read from a file are the file.
use picolibs.Base.{
  ℕ, zero, suc, ◌+◌, ◌<◌, ◌≤◌, ◌≡◌, refl, sym, ap, ◌∙◌, inl, inr, Bool-cases, List, [], ◌∷◌, ◌++◌,
  arith, ◌==◌, length, take, drop, length-append,
}
use picolibs.Util.FileLogger.{fgets, line_room, read_lines, all_lines, concat}

fgets-append : (room : ℕ) (file : List ℕ) → (fgets room file).0 ++ (fgets room file).1 ≡ file
unfolding fgets
fgets-append zero file = refl
fgets-append (suc room) [] = refl
fgets-append (suc room) (c ∷ file) = elim (Bool-cases (c == 10)) [
  | inl e ↦ rw e refl
  | inr e ↦ rw e (ap (◌∷◌ c) (fgets-append room file))
]

fgets-shorter :
    (room c : ℕ) (file : List ℕ) → length ((fgets (suc room) (c ∷ file)).1) ≤ length file
unfolding fgets
fgets-shorter room c file = elim (Bool-cases (c == 10)) [
  | inl e ↦ rw e (omega arith)
  | inr e ↦
      let whole = ap length (fgets-append room file) in
      rw e (omega (arith, whole, length-append ((fgets room file).0) ((fgets room file).1)))
]

-- Fuel for each byte is enough, and more changes nothing.
read_lines-same :
    (f g : ℕ) (file : List ℕ)
    → length file ≤ f
    → length file ≤ g
    → read_lines f file ≡ read_lines g file
unfolding read_lines
read_lines-same zero zero [] hf hg = refl
read_lines-same zero (suc g) [] hf hg = refl
read_lines-same (suc f) zero [] hf hg = refl
read_lines-same (suc f) (suc g) [] hf hg = refl
read_lines-same zero g (c ∷ file) hf hg = absurd (omega arith)
read_lines-same (suc f) zero (c ∷ file) hf hg = absurd (omega arith)
read_lines-same (suc f) (suc g) (c ∷ file) hf hg =
    let shorter = fgets-shorter 131 c file in
    ap (λ (rest : List (List ℕ)). (fgets line_room (c ∷ file)).0 ∷ rest)
      (read_lines-same f g ((fgets line_room (c ∷ file)).1) (omega (arith, shorter, hf))
        (omega (arith, shorter, hg)))

pub concat-read_lines :
    (fuel : ℕ) (file : List ℕ) → length file ≤ fuel → concat (read_lines fuel file) ≡ file
unfolding read_lines
concat-read_lines zero [] h = refl
concat-read_lines zero (c ∷ file) h = absurd (omega arith)
concat-read_lines (suc fuel) [] h = refl
concat-read_lines (suc fuel) (c ∷ file) h =
    let shorter = fgets-shorter 131 c file in
    ap (λ (rest : List ℕ). (fgets line_room (c ∷ file)).0 ++ rest)
      (concat-read_lines fuel ((fgets line_room (c ∷ file)).1) (omega (arith, shorter, h)))
    ∙ fgets-append line_room (c ∷ file)

-- Behind its first lines, a file has the lines that follow them.
drop_fuel :
    (k fuel : ℕ) (file : List ℕ)
    → length file ≤ fuel
    → drop k (read_lines fuel file) ≡ all_lines (concat (drop k (read_lines fuel file)))
unfolding read_lines
drop_fuel zero fuel file h =
    read_lines-same fuel (length file) file h (omega arith)
    ∙ sym (ap all_lines (concat-read_lines fuel file h))
drop_fuel (suc k) zero file h = refl
drop_fuel (suc k) (suc fuel) [] h = refl
drop_fuel (suc k) (suc fuel) (c ∷ file) h =
    let shorter = fgets-shorter 131 c file in
    drop_fuel k fuel ((fgets line_room (c ∷ file)).1) (omega (arith, shorter, h))

pub drop-all_lines :
    (k : ℕ) (file : List ℕ) → all_lines (concat (drop k (all_lines file))) ≡ drop k (all_lines file)
drop-all_lines k file = sym (drop_fuel k (length file) file (omega arith))

-- The bytes of the first lines.
abbrev pub total : List (List ℕ) → ℕ
total [] = 0
total (line ∷ lines) = length line + total lines

drop-append_more : (n : ℕ) (xs ys : List ℕ) → drop (length xs + n) (xs ++ ys) ≡ drop n ys
drop-append_more n [] ys = ap (λ (i : ℕ). drop i ys) (omega arith)
drop-append_more n (x ∷ xs) ys =
    let e : length (x ∷ xs) + n ≡ suc (length xs + n) = omega arith in
    ap (λ (i : ℕ). drop i (x ∷ (xs ++ ys))) e ∙ drop-append_more n xs ys

pub drop-concat :
    (k : ℕ) (lines : List (List ℕ))
    → drop (total (take k lines)) (concat lines) ≡ concat (drop k lines)
drop-concat zero lines = refl
drop-concat (suc k) [] = refl
drop-concat (suc k) (line ∷ lines) =
    drop-append_more (total (take k lines)) line (concat lines) ∙ drop-concat k lines

fgets-positive : (room c : ℕ) (file : List ℕ) → 0 < length ((fgets (suc room) (c ∷ file)).0)
unfolding fgets
fgets-positive room c file = elim (Bool-cases (c == 10)) [
  | inl e ↦ rw e (omega arith)
  | inr e ↦ rw e (omega arith)
]

-- Lines have bytes.
pub total-positive :
    (k fuel : ℕ) (file : List ℕ)
    → 0 < length (read_lines fuel file)
    → 0 < total (take (suc k) (read_lines fuel file))
unfolding read_lines
total-positive k zero file h = absurd (omega arith)
total-positive k (suc fuel) [] h = absurd (omega arith)
total-positive k (suc fuel) (c ∷ file) h = omega (arith, fgets-positive 131 c file)
