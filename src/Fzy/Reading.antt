-- ===== src/Fzy/Reading.antt =====
-- The loop of choices_fread in examples/fzy.c that splits what is read into lines.
pub mod Lines
use clang_witness_inject.Prelude.{ℕ, ◌+◌, List, [], ◌∷◌, ◌++◌, Text, length, ◌==◌, if◌then◌else◌}
use clang_witness_inject.Fzy.Scores.{Scores}
use clang_witness_inject.Fzy.Choices.{Choice, Choices, choices_add}

-- The line at an address, unless it is empty.
unfoldable pub keep_line : ℕ → Text → List Choice → List Choice
keep_line address [] choices = choices
keep_line address (c ∷ line) choices = record { address = address; str = c ∷ line } ∷ choices

-- The lines that are added. `line` is what strchr has come by since `address`, and the last argument
-- is what it has not, up to the end of the buffer. A NUL ends the search for another delimiter.
unfoldable pub read_lines : (delimiter address : ℕ) → Text → Text → List Choice
unfolding keep_line
read_lines delimiter address line [] = keep_line address line []
read_lines delimiter address line (b ∷ buffer) =
    let next = read_lines delimiter (address + length line + 1) [] buffer in
    let longer = read_lines delimiter address (line ++ b ∷ []) buffer in
    if b == delimiter
    then keep_line address line next
    else if b == 0
    then keep_line address line []
    else longer

module _ (sc : Scores) where
  unfoldable pub add_lines : List Choice → Choices sc → Choices sc
  unfolding choices_add
  add_lines [] c = c
  add_lines (line ∷ lines) c = add_lines lines (choices_add sc line c)

  -- The loop, where the buffer begins at `address`.
  unfoldable pub split_buffer : (delimiter address : ℕ) → Text → Choices sc → Choices sc
  unfolding add_lines read_lines
  split_buffer delimiter address buffer = add_lines (read_lines delimiter address [] buffer)
