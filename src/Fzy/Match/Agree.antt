-- ===== src/Fzy/Match/Agree.antt =====
-- The two ways to fill the tables give one score.
use clang_witness_inject.Prelude.{
  ℕ, zero, suc, ◌+◌, ◌-◌, ◌<◌, ◌≡◌, refl, ◌||◌, ◌⊎◌, inl, inr, [], ◌∷◌, Text, length, ltb, ◌==◌,
  if◌then◌else◌, arith, Bool-cases,
}
use clang_witness_inject.Fzy.Chars.{char_at}
use clang_witness_inject.Fzy.Scores.{Scores}
use clang_witness_inject.Fzy.Match.{
  MatchStruct, setup_match_struct, Rows, match_score, match_cell, match_cells, match_row,
  match_rows, match, table, match_positions,
}

module _ (sc : Scores) where
  open sc use {Score}

  -- Rows that hold the same in the first `k` columns.
  abbrev pub Agree : ℕ → Rows sc → Rows sc → Type 0
  Agree k r r' = (j : ℕ) → j < k → (r.d j ≡ r'.d j) × (r.m j ≡ r'.m j)

  module _ (ms : MatchStruct) (i : ℕ) (gap : Score) where
    -- The score of a cell reads the rows before only to the left of its column, and in the first
    -- row not at all.
    match_score-Agree :
        (j : ℕ) (last last' : Rows sc)
        → (i ≡ 0) ⊎ Agree j last last'
        → match_score sc ms i j last ≡ match_score sc ms i j last'
    unfolding match_score
    match_score-Agree j last last' (inl e) = rw e
    match_score-Agree zero last last' (inr h) = refl
    match_score-Agree (suc j) last last' (inr h) =
        let (p, q) = h (suc j - 1) (omega arith) in rw (p, q)

    match_cell-Agree :
        (k : ℕ) (last last' c c' : Rows sc) (p p' : Score)
        → match_score sc ms i k last ≡ match_score sc ms i k last'
        → p ≡ p'
        → Agree k c c'
        → Agree
            (suc k)
            (match_cell sc ms i gap last k (c, p)).0
            (match_cell sc ms i gap last' k (c', p')).0
          × ((match_cell sc ms i gap last k (c, p)).1 ≡ (match_cell sc ms i gap last' k (c', p')).1)
    unfolding match_cell
    match_cell-Agree k last last' c c' p p' same same_prev h =
        elim (Bool-cases (char_at ms.lower_needle i == char_at ms.lower_haystack k)) [
          | inl e ↦
              rw (e, same, same_prev)
                (
                  λ j l. elim (Bool-cases (j == k)) [
                    | inl here ↦ rw here (refl, refl)
                    | inr other ↦ rw other (h j (ground arith))
                  ],
                  refl,
                )
          | inr e ↦
              rw (e, same_prev)
                (
                  λ j l. elim (Bool-cases (j == k)) [
                    | inl here ↦ rw here (refl, refl)
                    | inr other ↦ rw other (h j (ground arith))
                  ],
                  refl,
                )
        ]

    match_cells-Agree :
        (k : ℕ) (last last' curr curr' : Rows sc)
        → (i ≡ 0) ⊎ Agree k last last'
        → Agree k (match_cells sc ms i gap last k curr).0 (match_cells sc ms i gap last' k curr').0
          × ((match_cells sc ms i gap last k curr).1 ≡ (match_cells sc ms i gap last' k curr').1)
    unfolding match_cells
    match_cells-Agree zero last last' curr curr' h = (λ j l. absurd (omega arith), refl)
    match_cells-Agree (suc k) last last' curr curr' h =
        let before : (i ≡ 0) ⊎ Agree k last last' = elim h [
          | inl e ↦ inl e
          | inr f ↦ inr (λ j l. f j (omega arith))
        ] in
        let (agree, same_prev) = match_cells-Agree k last last' curr curr' before in
        match_cell-Agree k last last' (match_cells sc ms i gap last k curr).0
          (match_cells sc ms i gap last' k curr').0 (match_cells sc ms i gap last k curr).1
          (match_cells sc ms i gap last' k curr').1 (match_score-Agree k last last' before)
          same_prev agree

  match_row-Agree :
      (ms : MatchStruct) (i : ℕ) (curr curr' last last' : Rows sc)
      → (i ≡ 0) ⊎ Agree ms.haystack_len last last'
      → Agree ms.haystack_len (match_row sc ms i curr last) (match_row sc ms i curr' last')
  unfolding match_row
  match_row-Agree ms i curr curr' last last' h =
      (match_cells-Agree ms i
        (if i + 1 == ms.needle_len then sc.negate (sc.milli 5) else sc.negate (sc.milli 10))
        ms.haystack_len last last' curr curr' h).0

  -- Behind round `i` of the loop of `match` the last rows are those of row `i` of the tables.
  match_rows-Agree :
      (ms : MatchStruct) (heap : ℕ → Rows sc) (unset : Rows sc) (start : Rows sc × Rows sc) (i : ℕ)
      → Agree ms.haystack_len (match_rows sc ms (suc i) start).1 (table sc ms heap unset i)
  unfolding match_rows table
  match_rows-Agree ms heap unset start zero =
      match_row-Agree ms 0 start.0 (heap 0) start.1 unset (inl refl)
  match_rows-Agree ms heap unset start (suc i) =
      match_row-Agree ms (suc i) (match_rows sc ms (suc i) start).0 (heap (suc i))
        (match_rows sc ms (suc i) start).1 (table sc ms heap unset i)
        (inr (match_rows-Agree ms heap unset start i))

  last_row-Agree :
      (ms : MatchStruct) (heap : ℕ → Rows sc) (unset : Rows sc) (start : Rows sc × Rows sc)
      (n k : ℕ)
      → n ≡ suc k
      → n - 1 ≡ k
      → Agree ms.haystack_len (match_rows sc ms n start).1 (table sc ms heap unset (n - 1))
  last_row-Agree ms heap unset start n k e f = rw (f, e) (match_rows-Agree ms heap unset start k)

  pub setup_lengths :
      (needle haystack : Text)
      → ((setup_match_struct needle haystack).needle_len ≡ length needle)
        × ((setup_match_struct needle haystack).haystack_len ≡ length haystack)
  unfolding setup_match_struct
  setup_lengths needle haystack =
      elim (Bool-cases (ltb 1024 (length haystack) || ltb (length haystack) (length needle))) [
        | inl e ↦ rw e (refl, refl)
        | inr e ↦ rw e (refl, refl)
      ]

  -- `match`, which keeps two rows of each table, and `match_positions`, which keeps them all, give
  -- one score, whatever the memory holds before.
  pub match-match_positions :
      (curr last : Rows sc) (heap : ℕ → Rows sc) (unset : Rows sc) (needle haystack : Text)
      (positions : ℕ → ℕ)
      → match sc curr last needle haystack
        ≡ (match_positions sc heap unset needle haystack positions).0
  unfolding match match_positions
  match-match_positions curr last heap unset [] haystack positions = refl
  match-match_positions curr last heap unset (c ∷ needle) haystack positions =
      let ms = setup_match_struct (c ∷ needle) haystack in
      let n : ms.needle_len ≡ suc (length needle) = (setup_lengths (c ∷ needle) haystack).0 in
      elim (Bool-cases (ltb 1024 ms.haystack_len || ltb ms.haystack_len ms.needle_len)) [
        | inl out ↦ rw out
        | inr fits ↦ elim (Bool-cases (ms.needle_len == ms.haystack_len)) [
          | inl whole ↦ rw (fits, whole)
          | inr part ↦
              let column : ms.haystack_len - 1 < ms.haystack_len = ground (arith, fits, n) in
              let below : ms.needle_len - 1 ≡ length needle = omega (arith, n) in
              rw (fits, part)
                (last_row-Agree ms heap unset (curr, last) ms.needle_len (length needle) n below
                  (ms.haystack_len - 1) column).1
        ]
      ]
