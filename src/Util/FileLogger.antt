-- ===== src/Util/FileLogger.antt =====
-- `FileLogger` (util/file_logger.{h,cpp}): the number of lines of the log's file, and how the file is cut to its last lines.
-- A file is its bytes. Whether the other file, `tmp.tmp`, can be opened and written is an argument, and so is what it holds
-- before, if it is there. The time stamps and the formats are left out.
pub mod Chunks
pub mod Trim
mod Tests
use picolibs.Base.{
  ℕ, zero, suc, ◌+◌, ◌-◌, Bool, true, false, Option, none, some, List, [], ◌∷◌, ◌++◌, ltb, ◌==◌,
  if◌then◌else◌, ◌>>=◌, length, take, drop,
}

-- The members of `FileLogger` for its lines, and the file, if there is one.
pub record FileLogger : Type 0 where
  pub max_lines : ℕ
  pub trimmed_lines : ℕ
  pub line_count : ℕ
  pub file : Option (List ℕ)

-- `fgets` into a buffer with room for so many bytes: the bytes to the end of the line, and the rest of the file.
unfoldable pub fgets : ℕ → List ℕ → List ℕ × List ℕ
fgets zero file = ([], file)
fgets (suc room) [] = ([], [])
fgets (suc room) (c ∷ file) =
    let (line, rest) = fgets room file in if c == 10 then (c ∷ [], file) else (c ∷ line, rest)

-- `sizeof(linebuf) - 1`
abbrev pub line_room : ℕ
line_room = 132

-- What the loops over `fgets` read, with fuel.
unfoldable pub read_lines : ℕ → List ℕ → List (List ℕ)
read_lines zero file = []
read_lines (suc fuel) [] = []
read_lines (suc fuel) (c ∷ file) =
    let (line, rest) = fgets line_room (c ∷ file) in line ∷ read_lines fuel rest

abbrev pub all_lines : List ℕ → List (List ℕ)
all_lines file = read_lines (length file) file

unfoldable pub count_lines : Option (List ℕ) → ℕ
count_lines none = 0
count_lines (some file) = length (all_lines file)

unfoldable pub new_file_logger : ℕ → ℕ → Option (List ℕ) → FileLogger
new_file_logger max trimmed contents =
    let max_lines = if ltb max 500 then 500 else max in
    record {
      max_lines = max_lines;
      trimmed_lines = if ltb (max_lines - 200) trimmed then max_lines - 200 else trimmed;
      line_count = count_lines contents;
      file = contents;
    }

-- The positions behind lines are kept, as many as the lines that are wanted and one more.
unfoldable pub push_pointer : ℕ → ℕ → List ℕ → List ℕ
push_pointer lines pos lineptrs =
    (if length lineptrs == lines + 1 then drop 1 lineptrs else lineptrs) ++ (pos ∷ [])

unfoldable pub line_pointers : ℕ → ℕ → List ℕ → List (List ℕ) → List ℕ
line_pointers lines pos lineptrs [] = lineptrs
line_pointers lines pos lineptrs (line ∷ rest) =
    let pos' = pos + length line in line_pointers lines pos' (push_pointer lines pos' lineptrs) rest

abbrev pub front : List ℕ → Option ℕ
front [] = none
front (x ∷ xs) = some x

-- `find_tail`; the front of a list that is empty is `none`.
unfoldable pub find_tail : ℕ → Option (List ℕ) → Option ℕ
find_tail lines none = none
find_tail lines (some file) = front (line_pointers lines 0 (0 ∷ []) (all_lines file))

abbrev pub concat : List (List ℕ) → List ℕ
concat [] = []
concat (line ∷ lines) = line ++ concat lines

-- What `%s` prints of a buffer.
unfoldable pub printed_text : List ℕ → List ℕ
printed_text [] = []
printed_text (c ∷ line) = if c == 0 then [] else c ∷ printed_text line

-- What is printed of lines.
unfoldable pub write_lines : List (List ℕ) → List ℕ
write_lines [] = []
write_lines (line ∷ lines) = printed_text line ++ write_lines lines

-- What `trim_file` does from a position on. `stale` is what the other file holds. When it cannot be opened, `ret` is still
-- true: the log is removed, and the other file, if it is there, takes its name.
unfoldable pub replace_file :
    Option (List ℕ) → Bool → Bool → ℕ → List ℕ → FileLogger → Bool × FileLogger
replace_file stale opens writes pos contents logger =
    let lines = all_lines (drop pos contents) in
    if opens
    then (if writes
        then (true, record logger { file = some (write_lines lines); line_count = length lines })
        else (false, logger))
    else (true, record logger { file = stale; line_count = 0 })

unfoldable pub trim_file : Option (List ℕ) → Bool → Bool → FileLogger → Option (Bool × FileLogger)
trim_file stale opens writes logger = do
  pos ← find_tail logger.trimmed_lines logger.file
  contents ← logger.file
  some (if ltb 0 pos then replace_file stale opens writes pos contents logger else (true, logger))
