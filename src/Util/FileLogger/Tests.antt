-- ===== src/Util/FileLogger/Tests.antt =====
-- A log of three lines, of which one is to stay.
use picolibs.Base.{ℕ, ◌-◌, ◌≡◌, refl, true, false, some, List, [], ◌∷◌, arith, length, drop}
use picolibs.Util.FileLogger.{FileLogger, fgets, read_lines, all_lines, concat, trim_file}
use picolibs.Util.FileLogger.Trim.{trim_file_lem}

abbrev three : List ℕ
three = 65 ∷ 10 ∷ 66 ∷ 10 ∷ 67 ∷ 10 ∷ []

abbrev log : FileLogger
log = record { max_lines = 500; trimmed_lines = 1; line_count = 3; file = some three }

three_lines : length (all_lines three) ≡ 3
unfolding read_lines fgets
three_lines = refl

trim_file_lem_example :
    let lines = drop (length (all_lines three) - 1) (all_lines three) in
    (trim_file (some (66 ∷ [])) true true log
      ≡ some (true, record log { file = some (concat lines); line_count = 1 }))
    × (length lines ≡ 1)
    × (trim_file (some (66 ∷ [])) true false log ≡ some (false, log))
    × (trim_file (some (66 ∷ [])) false true log
        ≡ some (true, record log { file = some (66 ∷ []); line_count = 0 }))
trim_file_lem_example =
    trim_file_lem log three (some (66 ∷ [])) refl (refl, (refl, (refl, (refl, (refl, (refl, tt))))))
      (omega (arith, three_lines))
