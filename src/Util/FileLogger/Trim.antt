-- ===== src/Util/FileLogger/Trim.antt =====
-- A log that is cut keeps its last lines.
use picolibs.Base.{
  ℕ, zero, suc, ◌+◌, ◌-◌, ◌<◌, ◌≤◌, ◌≡◌, refl, sym, ap, subst, ◌∙◌, true, false, inl, inr,
  Bool-cases, Option, some, List, [], ◌∷◌, ◌++◌, append_assoc, append-nil, arith, ltb, ◌==◌, ==_iff,
  length, take, drop, drop-drop, length-append, length-drop,
}
use picolibs.Util.FileLogger.{
  FileLogger, all_lines, push_pointer, line_pointers, front, find_tail, concat, printed_text,
  write_lines, replace_file, trim_file,
}
use picolibs.Util.FileLogger.Chunks.{
  concat-read_lines, drop-all_lines, total, total-positive, drop-concat,
}

-- The last entries of a list.
last : ℕ → List ℕ → List ℕ
last n xs = drop (length xs - n) xs

drop-snoc :
    (k : ℕ) (xs : List ℕ) (x : ℕ) → k ≤ length xs → drop k xs ++ (x ∷ []) ≡ drop k (xs ++ (x ∷ []))
drop-snoc zero xs x h = refl
drop-snoc (suc k) [] x h = absurd (omega arith)
drop-snoc (suc k) (y ∷ xs) x h = drop-snoc k xs x (omega arith)

push_pointer-last :
    (lines pos : ℕ) (all : List ℕ)
    → push_pointer lines pos (last (lines + 1) all) ≡ last (lines + 1) (all ++ (pos ∷ []))
unfolding push_pointer last
push_pointer-last lines pos all = elim (Bool-cases (ltb (length all) (lines + 1))) [
  | inl short ↦
      let few : length all < lines + 1 = ground (arith, short) in
      let k : length all - (lines + 1) ≡ 0 = omega (arith, few) in
      let k' : length (all ++ (pos ∷ [])) - (lines + 1) ≡ 0 =
        omega (arith, few, length-append all (pos ∷ [])) in
      let more : (length all == lines + 1) ≡ false = ground (arith, few) in
      rw (push_pointer, k, k', more) refl
  | inr long ↦
      let many : lines + 1 ≤ length all = ground (arith, long) in
      let k = length all - (lines + 1) in
      let full : length (drop k all) ≡ lines + 1 = omega (arith, many, length-drop k all) in
      let same : (length (drop k all) == lines + 1) ≡ true =
        (==_iff (length (drop k all)) (lines + 1)).1 full in
      let next : length (all ++ (pos ∷ [])) - (lines + 1) ≡ k + 1 =
        omega (arith, many, length-append all (pos ∷ [])) in
      rw (push_pointer, same, next, drop-drop 1 k all)
        (drop-snoc (k + 1) all pos (omega (arith, many)))
]

-- The positions behind lines.
positions : ℕ → List (List ℕ) → List ℕ
positions pos [] = []
positions pos (line ∷ lines) = (pos + length line) ∷ positions (pos + length line) lines

line_pointers-last :
    (lines pos : ℕ) (all : List ℕ) (rest : List (List ℕ))
    → line_pointers lines pos (last (lines + 1) all) rest
      ≡ last (lines + 1) (all ++ positions pos rest)
unfolding line_pointers positions
line_pointers-last lines pos all [] = ap (last (lines + 1)) (sym (append-nil all))
line_pointers-last lines pos all (line ∷ rest) =
    ap (λ (ptrs : List ℕ). line_pointers lines (pos + length line) ptrs rest)
      (push_pointer-last lines (pos + length line) all)
    ∙ line_pointers-last lines (pos + length line) (all ++ ((pos + length line) ∷ [])) rest
    ∙ ap (last (lines + 1))
        (append_assoc all ((pos + length line) ∷ []) (positions (pos + length line) rest))

length-positions : (pos : ℕ) (lines : List (List ℕ)) → length (positions pos lines) ≡ length lines
unfolding positions
length-positions pos [] = refl
length-positions pos (line ∷ lines) = ap suc (length-positions (pos + length line) lines)

front-positions :
    (k pos : ℕ) (lines : List (List ℕ))
    → k ≤ length lines
    → front (drop k (pos ∷ positions pos lines)) ≡ some (pos + total (take k lines))
unfolding positions
front-positions zero pos lines h = ap some (omega arith)
front-positions (suc k) pos [] h = absurd (omega arith)
front-positions (suc k) pos (line ∷ lines) h =
    front-positions k (pos + length line) lines (omega arith) ∙ ap some (omega arith)

-- The position of the last lines.
find_tail-lines :
    (lines : ℕ) (file : List ℕ)
    → find_tail lines (some file)
      ≡ some (total (take (length (all_lines file) - lines) (all_lines file)))
unfolding find_tail last
find_tail-lines lines file =
    let cs = all_lines file in
    let k : length (0 ∷ positions 0 cs) - (lines + 1) ≡ length cs - lines =
      omega (arith, length-positions 0 cs) in
    let start : 0 ∷ [] ≡ last (lines + 1) (0 ∷ []) =
      let nothing : 0 ≡ 1 - (lines + 1) = omega arith in ap (λ (i : ℕ). drop i (0 ∷ [])) nothing in
    ap (λ (ptrs : List ℕ). front (line_pointers lines 0 ptrs cs)) start
    ∙ ap front (line_pointers-last lines 0 (0 ∷ []) cs)
    ∙ ap (λ (i : ℕ). front (drop i (0 ∷ positions 0 cs))) k
    ∙ front-positions (length cs - lines) 0 cs (omega arith)
    ∙ ap some (omega arith)

-- From the position of the last lines on, the file has these lines.
tail-lines :
    (k : ℕ) (file : List ℕ)
    → all_lines (drop (total (take k (all_lines file))) file) ≡ drop k (all_lines file)
tail-lines k file =
    let whole : concat (all_lines file) ≡ file =
      concat-read_lines (length file) file (omega arith) in
    ap (λ (bytes : List ℕ). all_lines (drop (total (take k (all_lines file))) bytes)) (sym whole)
    ∙ ap all_lines (drop-concat k (all_lines file))
    ∙ drop-all_lines k file

-- A log without null characters.
abbrev pub AllText : List ℕ → Type 0
AllText [] = Unit
AllText (c ∷ text) = ((c == 0) ≡ false) × AllText text

AllText-append : (xs ys : List ℕ) → AllText (xs ++ ys) → AllText xs × AllText ys
AllText-append [] ys h = (tt, h)
AllText-append (x ∷ xs) ys (here, h) =
    let (front, back) = AllText-append xs ys h in ((here, front), back)

AllText-drop :
    (k : ℕ) (lines : List (List ℕ)) → AllText (concat lines) → AllText (concat (drop k lines))
AllText-drop zero lines h = h
AllText-drop (suc k) [] h = h
AllText-drop (suc k) (line ∷ lines) h =
    AllText-drop k lines ((AllText-append line (concat lines) h).1)

printed_text-whole : (line : List ℕ) → AllText line → printed_text line ≡ line
unfolding printed_text
printed_text-whole [] h = refl
printed_text-whole (c ∷ line) (here, h) =
    rw (printed_text, here) (ap (◌∷◌ c) (printed_text-whole line h))

write_lines-concat :
    (lines : List (List ℕ)) → AllText (concat lines) → write_lines lines ≡ concat lines
unfolding write_lines
write_lines-concat [] h = refl
write_lines-concat (line ∷ lines) h =
    let (here, later) = AllText-append line (concat lines) h in
    rw (write_lines, printed_text-whole line here, write_lines-concat lines later) refl

-- A log without null characters and with more lines than are to stay is cut. If the other file can be opened and written,
-- the log is then its last lines, byte for byte, as many as are to stay, and they are counted. If it cannot be written, the
-- log stays as it was, and the answer says so. If it cannot be opened, the log is lost, whatever the other file held takes
-- its place, and the answer is nevertheless true.
pub trim_file_lem :
    (logger : FileLogger) (contents : List ℕ) (stale : Option (List ℕ))
    → logger.file ≡ some contents
    → AllText contents
    → logger.trimmed_lines < length (all_lines contents)
    → let lines = drop (length (all_lines contents) - logger.trimmed_lines) (all_lines contents) in
      (trim_file stale true true logger
        ≡ some
            (true, record logger { file = some (concat lines); line_count = logger.trimmed_lines }))
      × (length lines ≡ logger.trimmed_lines)
      × (trim_file stale true false logger ≡ some (false, logger))
      × (trim_file stale false true logger
          ≡ some (true, record logger { file = stale; line_count = 0 }))
unfolding trim_file replace_file
trim_file_lem logger contents stale there text more =
    let k = length (all_lines contents) - logger.trimmed_lines in
    let n = k - 1 in
    let some_lines : k ≡ suc n = omega (arith, more) in
    let positive : 0 < total (take (suc n) (all_lines contents)) =
      total-positive n (length contents) contents (omega (arith, more)) in
    let positive' : 0 < total (take k (all_lines contents)) =
      subst (λ (i : ℕ). 0 < total (take i (all_lines contents))) (sym some_lines) positive in
    let runs : ltb 0 (total (take k (all_lines contents))) ≡ true = ground (arith, positive') in
    let pos = find_tail-lines logger.trimmed_lines contents in
    let count : length (drop k (all_lines contents)) ≡ logger.trimmed_lines =
      omega (arith, length-drop k (all_lines contents), more) in
    let whole : concat (all_lines contents) ≡ contents =
      concat-read_lines (length contents) contents (omega arith) in
    let printed : write_lines (drop k (all_lines contents)) ≡ concat (drop k (all_lines contents)) =
      write_lines-concat (drop k (all_lines contents))
        (AllText-drop k (all_lines contents) (subst AllText (sym whole) text)) in
    (
      rw (trim_file, there, pos, runs, replace_file, tail-lines k contents, count, printed) refl,
      count,
      rw (trim_file, there, pos, runs, replace_file) refl,
      rw (trim_file, there, pos, runs, replace_file) refl,
    )
