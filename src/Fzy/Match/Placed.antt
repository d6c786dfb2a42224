-- ===== src/Fzy/Match/Placed.antt =====
-- Where `match_positions` places the characters of the search.
use clang_witness_inject.Prelude.{
  ℕ, zero, suc, ◌+◌, ◌≤◌, ◌<◌, ◌≡◌, true, false, ◌||◌, ◌⊎◌, inl, inr, [], ◌∷◌, Text, length, ltb,
  ◌==◌, if◌then◌else◌, arith, Bool-cases,
}
use clang_witness_inject.Fzy.Chars.{char_at}
use clang_witness_inject.Fzy.Scores.{Scores}
use clang_witness_inject.Fzy.Match.{
  MatchStruct, setup_match_struct, Rows, lowest, match_cell, match_cells, match_row, table,
  backtrack, match_positions,
}
use clang_witness_inject.Fzy.Match.Agree.{setup_lengths}
use clang_witness_inject.Fzy.Match.Backtrack.{backtrack-scored}

module _ (sc : Scores) (lowest_eq : sc.eq (lowest sc) (lowest sc) ≡ true) where
  open sc use {Score}

  -- The character of row `i` and that of column `j` are one, but for their case.
  abbrev Same : MatchStruct → ℕ → ℕ → Type 0
  Same ms i j = char_at ms.lower_needle i ≡ char_at ms.lower_haystack j

  -- A cell with another score than the lowest is one of equal characters.
  abbrev Scored : MatchStruct → ℕ → Rows sc → ℕ → Type 0
  Scored ms i row k = (j : ℕ) → j < k → sc.eq (row.d j) (lowest sc) ≡ false → Same ms i j

  cells-Scored :
      (ms : MatchStruct) (i : ℕ) (gap : Score) (last curr : Rows sc) (k : ℕ)
      → Scored ms i (match_cells sc ms i gap last k curr).0 k
  unfolding match_cells match_cell
  cells-Scored ms i gap last curr zero j h e = absurd (omega arith)
  cells-Scored ms i gap last curr (suc k) j h e =
      elim (Bool-cases (char_at ms.lower_needle i == char_at ms.lower_haystack k)) [
        | inl same ↦ elim (Bool-cases (j == k)) [
          | inl here ↦ ground (arith, same, here)
          | inr other ↦ cells-Scored ms i gap last curr k j (ground arith) (rw (same, other) at e)
        ]
        | inr differ ↦ elim (Bool-cases (j == k)) [
          | inl here ↦ cc (rw (differ, here) at e, lowest_eq)
          | inr other ↦ cells-Scored ms i gap last curr k j (ground arith) (rw (differ, other) at e)
        ]
      ]

  table-Scored :
      (ms : MatchStruct) (heap : ℕ → Rows sc) (unset : Rows sc) (i : ℕ)
      → Scored ms i (table sc ms heap unset i) ms.haystack_len
  unfolding table match_row
  table-Scored ms heap unset zero =
      cells-Scored ms 0
        (if 0 + 1 == ms.needle_len then sc.negate (sc.milli 5) else sc.negate (sc.milli 10)) unset
        (heap 0) ms.haystack_len
  table-Scored ms heap unset (suc i) =
      cells-Scored ms (suc i)
        (if suc i + 1 == ms.needle_len then sc.negate (sc.milli 5) else sc.negate (sc.milli 10))
        (table sc ms heap unset i) (heap (suc i)) ms.haystack_len

  -- In a string longer than the search, each position that is set lies in the string, at the
  -- character of the search but for its case.
  pub match_positions_lem :
      (heap : ℕ → Rows sc) (unset : Rows sc) (needle haystack : Text) (positions : ℕ → ℕ) (i : ℕ)
      → i < length needle
      → length needle < length haystack
      → length haystack ≤ 1024
      → let r = (match_positions sc heap unset needle haystack positions).1 i in
        (r ≡ positions i) ⊎ ((r < length haystack) × Same (setup_match_struct needle haystack) i r)
  unfolding match_positions
  match_positions_lem heap unset [] haystack positions i h l b = absurd (omega arith)
  match_positions_lem heap unset (c ∷ needle) haystack positions i h l b =
      let ms = setup_match_struct (c ∷ needle) haystack in
      let (n, m) = setup_lengths sc (c ∷ needle) haystack in
      let rows = table sc ms heap unset in
      let fits : (ltb 1024 ms.haystack_len || ltb ms.haystack_len ms.needle_len) ≡ false =
        ground (arith, n, m) in
      let part : (ms.needle_len == ms.haystack_len) ≡ false = ground (arith, n, m) in
      rw (fits, part)
        (elim (backtrack-scored sc rows ms.needle_len ms.haystack_len false positions i
          (omega (arith, n))) [
            | inl unset_still ↦ inl unset_still
            | inr (below, scored) ↦ inr (
              omega (arith, below, m),
              table-Scored ms heap unset i
                  (backtrack sc rows ms.needle_len ms.haystack_len false positions i) below scored,
            )
          ])
