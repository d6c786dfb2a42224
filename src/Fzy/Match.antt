-- ===== src/Fzy/Match.antt =====
-- match.c in examples/fzy.c: whether a string matches the search, how well, and where.
pub mod Subsequence
pub mod Agree
pub mod Backtrack
pub mod Placed
use clang_witness_inject.Prelude.{
  ℕ, zero, suc, ◌+◌, ◌-◌, Bool, true, false, ◌&&◌, ◌||◌, not, Option, none, some, List, [], ◌∷◌,
  map, Text, length, leb, ltb, ◌==◌, if◌then◌else◌,
}
use clang_witness_inject.Fzy.Chars.{tolower, toupper, char_at}
use clang_witness_inject.Fzy.Scores.{Scores}

-- The string behind the first character that `strcasechr` finds, if it finds one.
unfoldable pub strcasechr : Text → ℕ → Option Text
strcasechr [] c = none
strcasechr (h ∷ s) c =
    let rest = strcasechr s c in if h == c || h == toupper c then some s else rest

unfoldable pub has_match : Text → Text → Bool
has_match [] haystack = true
has_match (nch ∷ needle) haystack = elim (strcasechr haystack nch) [
  | none ↦ false
  | some rest ↦ has_match needle rest
]

-- `bonus_index`: 1 for a digit and a lower case letter, 2 for an upper case letter.
unfoldable pub bonus_index : ℕ → ℕ
bonus_index ch =
    if (leb b'0' ch && leb ch b'9') || (leb b'a' ch && leb ch b'z')
    then 1
    else if leb b'A' ch && leb ch b'Z'
    then 2
    else 0

-- `bonus_states`, in thousandths.
unfoldable pub bonus_states : ℕ → ℕ → ℕ
bonus_states state last =
    if state == 0
    then 0
    else if last == b'/'
    then 900
    else if last == b'-' || last == b'_' || last == b' '
    then 800
    else if last == b'.'
    then 600
    else if state == 2 && leb b'a' last && leb last b'z'
    then 700
    else 0

-- The bonus of each character, where the character before the first is `last_ch`.
unfoldable pub precompute_bonus : ℕ → Text → List ℕ
precompute_bonus last_ch [] = []
precompute_bonus last_ch (ch ∷ haystack) =
    bonus_states (bonus_index ch) last_ch ∷ precompute_bonus ch haystack

-- The arrays are read inside the lengths.
pub record MatchStruct : Type 0 where
  pub needle_len : ℕ
  pub haystack_len : ℕ
  pub lower_needle : Text
  pub lower_haystack : Text
  pub match_bonus : ℕ → ℕ

nth_bonus : List ℕ → ℕ → ℕ
nth_bonus [] i = 0
nth_bonus (b ∷ bs) zero = b
nth_bonus (b ∷ bs) (suc i) = nth_bonus bs i

-- The fields but for the lengths stay unset, here empty, where the strings do not fit.
unfoldable pub setup_match_struct : Text → Text → MatchStruct
unfolding nth_bonus
setup_match_struct needle haystack =
    if ltb 1024 (length haystack) || ltb (length haystack) (length needle)
    then record {
      needle_len = length needle;
      haystack_len = length haystack;
      lower_needle = [];
      lower_haystack = [];
      match_bonus = λ i. 0;
    }
    else record {
      needle_len = length needle;
      haystack_len = length haystack;
      lower_needle = map tolower needle;
      lower_haystack = map tolower haystack;
      match_bonus = nth_bonus (precompute_bonus b'/' haystack);
    }

module _ (sc : Scores) where
  open sc use {Score, infinity, negate, of_int, milli, add, times, lt, eq}

  -- A row of one of the two tables, by column.
  abbrev Row : Type 0
  Row = ℕ → Score

  -- The rows `D` and `M`.
  pub record Rows : Type 0 where
    pub d : Row
    pub m : Row

  abbrev pub lowest : Score
  lowest = negate infinity

  abbrev set_row : Row → ℕ → Score → Row
  set_row r j v i = if i == j then v else r i

  -- The score of a match of character `i` at column `j`, from the rows before.
  unfoldable pub match_score : MatchStruct → ℕ → ℕ → Rows → Score
  match_score ms i j last =
      if i == 0
      then add (times (of_int j) (negate (milli 5))) (milli (ms.match_bonus j))
      else if j == 0
      then lowest
      else let extended = add (last.m (j - 1)) (milli (ms.match_bonus j)) in
        let consecutive = add (last.d (j - 1)) (milli 1000) in
        if lt consecutive extended then extended else consecutive

  -- A round of the loop of `match_row`: the rows and `prev_score`.
  unfoldable pub match_cell : MatchStruct → ℕ → Score → Rows → ℕ → Rows × Score → Rows × Score
  match_cell ms i gap last j (curr, prev) =
      let score = match_score ms i j last in
      let gapped = add prev gap in
      let best = if lt gapped score then score else gapped in
      if char_at ms.lower_needle i == char_at ms.lower_haystack j
      then (record { d = set_row curr.d j score; m = set_row curr.m j best }, best)
      else (record { d = set_row curr.d j lowest; m = set_row curr.m j gapped }, gapped)

  -- The first `k` rounds.
  unfoldable pub match_cells : MatchStruct → ℕ → Score → Rows → ℕ → Rows → Rows × Score
  match_cells ms i gap last zero curr = (curr, lowest)
  match_cells ms i gap last (suc k) curr =
      match_cell ms i gap last k (match_cells ms i gap last k curr)

  -- `curr` is what the rows hold before they are written.
  unfoldable pub match_row : MatchStruct → ℕ → Rows → Rows → Rows
  match_row ms row curr last =
      let gap = if row + 1 == ms.needle_len then negate (milli 5) else negate (milli 10) in
      (match_cells ms row gap last ms.haystack_len curr).0

  -- The loop of `match` over the first `k` characters: the current rows and the last ones, which are
  -- swapped behind each round.
  unfoldable pub match_rows : MatchStruct → ℕ → Rows × Rows → Rows × Rows
  match_rows ms zero (curr, last) = (curr, last)
  match_rows ms (suc k) start =
      let (curr, last) = match_rows ms k start in (last, match_row ms k curr last)

  -- `curr` and `last` are what the two pairs of rows on the stack hold before.
  unfoldable pub match : (curr last : Rows) → Text → Text → Score
  match curr last [] haystack = lowest
  match curr last (ch ∷ chs) haystack =
      let ms = setup_match_struct (ch ∷ chs) haystack in
      if ltb 1024 ms.haystack_len || ltb ms.haystack_len ms.needle_len
      then lowest
      else if ms.needle_len == ms.haystack_len
      then infinity
      else (match_rows ms ms.needle_len (curr, last)).1.m (ms.haystack_len - 1)

  -- The rows of the two tables of `match_positions`. `heap` is what the tables hold before, and
  -- `unset` what `last_D` and `last_M` point to in the first round, which does not read it.
  unfoldable pub table : MatchStruct → (heap : ℕ → Rows) → (unset : Rows) → ℕ → Rows
  table ms heap unset zero = match_row ms 0 (heap 0) unset
  table ms heap unset (suc i) = match_row ms (suc i) (heap (suc i)) (table ms heap unset i)

  -- The inner loop, over the columns below `q`: where the character of this row is placed.
  unfoldable pub find_column : Rows → Bool → ℕ → Option ℕ
  find_column row match_required zero = none
  find_column row match_required (suc j) =
      let rest = find_column row match_required j in
      if not (eq (row.d j) lowest) && (match_required || eq (row.d j) (row.m j))
      then some j
      else rest

  -- Whether the next character has to be placed right before column `j` of row `i`.
  unfoldable pub required : (ℕ → Rows) → ℕ → ℕ → Bool
  required rows zero j = false
  required rows (suc i) zero = false
  required rows (suc i) (suc j) = eq ((rows (suc i)).m (suc j)) (add ((rows i).d j) (milli 1000))

  abbrev pub set_position : (ℕ → ℕ) → ℕ → ℕ → ℕ → ℕ
  set_position positions i j k = if i == k then j else positions k

  -- The loop over the rows below `k`, from the last one down, with the columns below `q` left.
  unfoldable pub backtrack : (ℕ → Rows) → ℕ → ℕ → Bool → (ℕ → ℕ) → ℕ → ℕ
  backtrack rows zero q match_required positions = positions
  backtrack rows (suc i) q match_required positions = elim (find_column (rows i) match_required q) [
    | none ↦ backtrack rows i 0 match_required positions
    | some j ↦ backtrack rows i j (required rows i j) (set_position positions i j)
  ]

  -- The loop of `match_positions` for strings of one length.
  abbrev identity_positions : ℕ → (ℕ → ℕ) → ℕ → ℕ
  identity_positions n positions i = if ltb i n then i else positions i

  -- The score, and the array `positions` behind the call; its only caller hands one over.
  unfoldable pub match_positions :
      (heap : ℕ → Rows) (unset : Rows) → Text → Text → (ℕ → ℕ) → Score × (ℕ → ℕ)
  match_positions heap unset [] haystack positions = (lowest, positions)
  match_positions heap unset (ch ∷ chs) haystack positions =
      let ms = setup_match_struct (ch ∷ chs) haystack in
      let rows = table ms heap unset in
      if ltb 1024 ms.haystack_len || ltb ms.haystack_len ms.needle_len
      then (lowest, positions)
      else if ms.needle_len == ms.haystack_len
      then (infinity, identity_positions ms.needle_len positions)
      else (
        (rows (ms.needle_len - 1)).m (ms.haystack_len - 1),
        backtrack rows ms.needle_len ms.haystack_len false positions,
      )
