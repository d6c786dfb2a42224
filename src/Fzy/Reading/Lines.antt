-- ===== src/Fzy/Reading/Lines.antt =====
-- What choices_fread in examples/fzy.c makes of its input.
use clang_witness_inject.Prelude.{
  ◌^◌, suc, ℕ, ◌+◌, ◌<◌, ◌≤◌, ◌≡◌, ◌≢◌, refl, sym, ap, ◌∙◌, List, [], ◌∷◌, ◌++◌, map, Text, length,
  All, true, false, ◌==◌, arith, append-nil, append_assoc, length-append, Bool-cases, inl, inr,
  ==_iff,
}
use clang_witness_inject.Fzy.Scores.{Scores}
use clang_witness_inject.Fzy.Choices.{Choice, Choices, choices_add, choices_reset_search}
use clang_witness_inject.Fzy.Reading.{keep_line, read_lines, add_lines, split_buffer}

-- A line that can stand in the input: not empty, and neither the delimiter nor a NUL in it.
abbrev pub IsInputLine : ℕ → Text → Type 0
IsInputLine delimiter line =
    (line ≢ []) × All (λ b. (b == delimiter ≡ false) × (b == 0 ≡ false)) line

-- Each line with the delimiter behind it.
abbrev pub join_lines : ℕ → List Text → Text
join_lines delimiter [] = []
join_lines delimiter (line ∷ lines) = line ++ delimiter ∷ join_lines delimiter lines

read_lines-append :
    (delimiter address : ℕ) (line rest buffer : Text)
    → All (λ b. (b == delimiter ≡ false) × (b == 0 ≡ false)) rest
    → read_lines delimiter address line (rest ++ delimiter ∷ buffer)
      ≡ keep_line address
          (line ++ rest)
          (read_lines delimiter (address + length (line ++ rest) + 1) [] buffer)
unfolding read_lines
read_lines-append delimiter address line [] buffer h =
    let same : (delimiter == delimiter) ≡ true = (==_iff delimiter delimiter).1 refl in
    rw (same, append-nil line) refl
read_lines-append delimiter address line (b ∷ rest) buffer h =
    rw (h.0.0, h.0.1)
      (read_lines-append delimiter address (line ++ b ∷ []) rest buffer h.1
        ∙ ap (λ l. keep_line address l (read_lines delimiter (address + length l + 1) [] buffer))
            (append_assoc line (b ∷ []) rest))

map-append : {A B : Type 0} (f : A → B) (xs ys : List A) → map f (xs ++ ys) ≡ map f xs ++ map f ys
map-append f [] ys = refl
map-append f (x ∷ xs) ys = ap (λ r. f x ∷ r) (map-append f xs ys)

strings_kept :
    (address : ℕ) (line : Text) (choices : List Choice)
    → line ≢ []
    → map (λ c. c.str) (keep_line address line choices) ≡ line ∷ map (λ c. c.str) choices
unfolding keep_line
strings_kept address [] choices h = absurd (h refl)
strings_kept address (c ∷ line) choices h = refl

read_lines-join_lines :
    (delimiter address : ℕ) (lines : List Text)
    → All (IsInputLine delimiter) lines
    → map (λ c. c.str) (read_lines delimiter address [] (join_lines delimiter lines)) ≡ lines
unfolding read_lines keep_line
read_lines-join_lines delimiter address [] h = refl
read_lines-join_lines delimiter address (line ∷ lines) h =
    ap (map (λ c. c.str))
      (read_lines-append delimiter address [] line (join_lines delimiter lines) h.0.1)
    ∙ strings_kept address line _ h.0.0
    ∙ ap (λ ls. line ∷ ls) (read_lines-join_lines delimiter (address + length line + 1) lines h.1)

length-keep_line :
    (address : ℕ) (line : Text) (choices : List Choice)
    → length (keep_line address line choices) ≤ length line + length choices
unfolding keep_line
length-keep_line address [] choices = omega arith
length-keep_line address (c ∷ line) choices = omega arith

-- No more lines are read than there are bytes.
length-read_lines :
    (delimiter address : ℕ) (line buffer : Text)
    → length (read_lines delimiter address line buffer) ≤ length line + length buffer
unfolding read_lines
length-read_lines delimiter address line [] = length-keep_line address line []
length-read_lines delimiter address line (b ∷ buffer) =
    let behind = read_lines delimiter (address + length line + 1) [] buffer in
    elim (Bool-cases (b == delimiter)) [
      | inl end ↦ rw end (
          omega (
            arith,
            length-keep_line address line behind,
            length-read_lines delimiter (address + length line + 1) [] buffer,
          ))
      | inr on ↦ elim (Bool-cases (b == 0)) [
        | inl stop ↦ rw (on, stop) (omega (arith, length-keep_line address line []))
        | inr more ↦
            rw (on, more)
              (omega (
                arith,
                length-append line (b ∷ []),
                length-read_lines delimiter address (line ++ b ∷ []) buffer,
              ))
      ]
    ]

module _ (sc : Scores) where
  strings-add_lines :
      (lines : List Choice) (c : Choices sc) → (add_lines sc lines c).strings ≡ c.strings ++ lines
  unfolding add_lines choices_add choices_reset_search
  strings-add_lines [] c = sym (append-nil c.strings)
  strings-add_lines (line ∷ lines) c =
      strings-add_lines lines (choices_add sc line c) ∙ append_assoc c.strings (line ∷ []) lines

  -- Reading lines that are joined with the delimiter adds these lines in their order, if none of them
  -- is empty or holds the delimiter or a NUL.
  pub split_buffer-join_lines :
      (delimiter address : ℕ) (lines : List Text) (c : Choices sc)
      → All (IsInputLine delimiter) lines
      → map (λ c. c.str) (split_buffer sc delimiter address (join_lines delimiter lines) c).strings
        ≡ map (λ c. c.str) c.strings ++ lines
  unfolding split_buffer
  split_buffer-join_lines delimiter address lines c h =
      let read = read_lines delimiter address [] (join_lines delimiter lines) in
      ap (map (λ c. c.str)) (strings-add_lines read c)
      ∙ map-append (λ c. c.str) c.strings read
      ∙ ap (λ ls. map (λ c. c.str) c.strings ++ ls)
          (read_lines-join_lines delimiter address lines h)

  abbrev pub HasRoom : Choices sc → Type 0
  HasRoom c = (0 < c.capacity) × (length c.strings ≤ c.capacity)

  choices_add-HasRoom :
      (line : Choice) (c : Choices sc)
      → HasRoom c
      → length c.strings < 2 ^ 62
      → c.capacity < 2 ^ 63
      → HasRoom (choices_add sc line c)
        × ((choices_add sc line c).capacity < 2 ^ 63)
        × (length (choices_add sc line c).strings ≡ suc (length c.strings))
  unfolding choices_add choices_reset_search
  choices_add-HasRoom line c h few small =
      let longer = length-append c.strings (line ∷ []) in
      elim (Bool-cases (length c.strings == c.capacity)) [
        | inl full ↦ rw full (ground (arith, h, longer))
        | inr room ↦ rw room (ground (arith, h, longer))
      ]

  add_lines-HasRoom :
      (lines : List Choice) (c : Choices sc)
      → HasRoom c
      → length c.strings + length lines < 2 ^ 62
      → c.capacity < 2 ^ 63
      → HasRoom (add_lines sc lines c)
  unfolding add_lines
  add_lines-HasRoom [] c h few small = h
  add_lines-HasRoom (line ∷ lines) c h few small =
      let (room, below, longer) = choices_add-HasRoom line c h (omega arith) small in
      add_lines-HasRoom lines (choices_add sc line c) room (omega (arith, longer)) below

  -- The strings stay inside their array while lines are added, if it has room for one at first,
  -- whatever the input is, as long as the strings and the bytes that are read are fewer than 2^62 and
  -- the array has had less than 2^63 places.
  pub split_buffer-HasRoom :
      (delimiter address : ℕ) (buffer : Text) (c : Choices sc)
      → HasRoom c
      → length c.strings + length buffer < 2 ^ 62
      → c.capacity < 2 ^ 63
      → HasRoom (split_buffer sc delimiter address buffer c)
  unfolding split_buffer
  split_buffer-HasRoom delimiter address buffer c h few small =
      let read = read_lines delimiter address [] buffer in
      add_lines-HasRoom read c h (omega (arith, length-read_lines delimiter address [] buffer))
        small
