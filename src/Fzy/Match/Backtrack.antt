-- ===== src/Fzy/Match/Backtrack.antt =====
-- The loop of `match_positions` that places the characters of the search, from the last one on.
use clang_witness_inject.Prelude.{
  ℕ, zero, suc, ◌≤◌, ◌<◌, ◌≡◌, refl, ◌∙◌, ap₂, Bool, false, ◌&&◌, ◌||◌, not, ◌⊎◌, inl, inr, some,
  [], ◌∷◌, Text, length, ltb, ◌==◌, arith, Bool-cases, Option-cases, ==_iff,
}
use clang_witness_inject.Fzy.Scores.{Scores}
use clang_witness_inject.Fzy.Match.{
  setup_match_struct, Rows, lowest, table, find_column, required, set_position, backtrack,
  match_positions,
}
use clang_witness_inject.Fzy.Match.Agree.{setup_lengths}

module _ (sc : Scores) where
  open sc use {Score}

  find_column_lem :
      (row : Rows sc) (r : Bool) (q : ℕ) {j : ℕ}
      → find_column sc row r q ≡ some j
      → (j < q) × (sc.eq (row.d j) (lowest sc) ≡ false)
  unfolding find_column
  find_column_lem row r zero e = cc
  find_column_lem row r (suc k) {j} e =
      elim (Bool-cases (not (sc.eq (row.d k) (lowest sc)) && (r || sc.eq (row.d k) (row.m k)))) [
        | inl stop ↦ let same : k ≡ j = cc (rw stop at e) in rw (← same) (omega arith, ground arith)
        | inr on ↦
            let (below, found) = find_column_lem row r k (rw on at e) in
            (omega (arith, below), found)
      ]

  module _ (rows : ℕ → Rows sc) where
    backtrack-above :
        (k q : ℕ) (r : Bool) (positions : ℕ → ℕ) (i : ℕ)
        → k ≤ i
        → backtrack sc rows k q r positions i ≡ positions i
    unfolding backtrack
    backtrack-above zero q r positions i h = refl
    backtrack-above (suc k) q r positions i h = elim (Option-cases (find_column sc (rows k) r q)) [
      | inl e ↦ rw (e, backtrack) (backtrack-above k 0 r positions i (omega arith))
      | inr (j, e) ↦
          rw (e, backtrack)
            (backtrack-above k j (required sc rows k j) (set_position sc positions k j) i
                (omega arith)
              ∙ ground arith)
    ]

    -- A position that the loop sets lies in the columns that were left, in a cell that has a score.
    pub backtrack-scored :
        (k q : ℕ) (r : Bool) (positions : ℕ → ℕ) (i : ℕ)
        → i < k
        → (backtrack sc rows k q r positions i ≡ positions i)
          ⊎ ((backtrack sc rows k q r positions i < q)
              × (sc.eq ((rows i).d (backtrack sc rows k q r positions i)) (lowest sc) ≡ false))
    unfolding backtrack
    backtrack-scored zero q r positions i h = absurd (omega arith)
    backtrack-scored (suc k) q r positions i h = elim (Option-cases (find_column sc (rows k) r q)) [
      | inl e ↦
          rw (e, backtrack)
            (elim (Bool-cases (i == k)) [
              | inl here ↦ inl (backtrack-above k 0 r positions i (ground arith))
              | inr other ↦ elim (backtrack-scored k 0 r positions i (ground arith)) [
                | inl unset ↦ inl unset
                | inr (below, scored) ↦ absurd (omega (arith, below))
              ]
            ])
      | inr (j, e) ↦
          let (j_lt, scored) = find_column_lem (rows k) r q e in
          let written = set_position sc positions k j in
          rw (e, backtrack)
            (elim (Bool-cases (i == k)) [
              | inl here ↦
                  let same : i ≡ k = (==_iff i k).0 here in
                  let last : backtrack sc rows k j (required sc rows k j) written i ≡ j =
                    backtrack-above k j (required sc rows k j) written i (ground arith)
                    ∙ ground arith in
                  inr (
                    omega (arith, last, j_lt),
                    ap₂ (λ (a b : ℕ). sc.eq ((rows a).d b) (lowest sc)) same last ∙ scored,
                  )
              | inr other ↦
                  elim (backtrack-scored k j (required sc rows k j) written i (ground arith)) [
                    | inl unset ↦ inl (unset ∙ ground arith)
                    | inr (below, found) ↦ inr (omega (arith, below, j_lt), found)
                  ]
            ])
    ]

    -- The positions that it sets increase.
    backtrack-increasing :
        (k q : ℕ) (r : Bool) (positions : ℕ → ℕ) (i i' : ℕ)
        → i < i'
        → i' < k
        → (backtrack sc rows k q r positions i ≡ positions i)
          ⊎ (backtrack sc rows k q r positions i' ≡ positions i')
          ⊎ (backtrack sc rows k q r positions i < backtrack sc rows k q r positions i')
    unfolding backtrack
    backtrack-increasing zero q r positions i i' h l = absurd (omega arith)
    backtrack-increasing (suc k) q r positions i i' h l =
        elim (Option-cases (find_column sc (rows k) r q)) [
          | inl e ↦
              rw (e, backtrack)
                (elim (Bool-cases (i' == k)) [
                  | inl here ↦ inr (inl (backtrack-above k 0 r positions i' (ground arith)))
                  | inr other ↦ backtrack-increasing k 0 r positions i i' h (ground arith)
                ])
          | inr (j, e) ↦
              let written = set_position sc positions k j in
              rw (e, backtrack)
                (elim (Bool-cases (i' == k)) [
                  | inl here ↦
                      let last : backtrack sc rows k j (required sc rows k j) written i' ≡ j =
                        backtrack-above k j (required sc rows k j) written i' (ground arith)
                        ∙ ground arith in
                      elim (backtrack-scored k j (required sc rows k j) written i (ground arith)) [
                        | inl unset ↦ inl (unset ∙ ground arith)
                        | inr (below, found) ↦ inr (inr (omega (arith, below, last)))
                      ]
                  | inr other ↦
                      elim (backtrack-increasing k j (required sc rows k j) written i i' h
                        (ground arith)) [
                          | inl unset ↦ inl (unset ∙ ground arith)
                          | inr (inl unset) ↦ inr (inl (unset ∙ ground arith))
                          | inr (inr less) ↦ inr (inr less)
                        ]
                ])
        ]

  -- The positions that are set increase.
  pub match_positions_increasing :
      (heap : ℕ → Rows sc) (unset : Rows sc) (needle haystack : Text) (positions : ℕ → ℕ) (i i' : ℕ)
      → i < i'
      → i' < length needle
      → let r = (match_positions sc heap unset needle haystack positions).1 in
        (r i ≡ positions i) ⊎ (r i' ≡ positions i') ⊎ (r i < r i')
  unfolding match_positions
  match_positions_increasing heap unset [] haystack positions i i' h l = absurd (omega arith)
  match_positions_increasing heap unset (c ∷ needle) haystack positions i i' h l =
      let ms = setup_match_struct (c ∷ needle) haystack in
      let (n, m) = setup_lengths sc (c ∷ needle) haystack in
      let rows = table sc ms heap unset in
      elim (Bool-cases (ltb 1024 ms.haystack_len || ltb ms.haystack_len ms.needle_len)) [
        | inl out ↦ rw out (inl refl)
        | inr fits ↦ elim (Bool-cases (ms.needle_len == ms.haystack_len)) [
          | inl whole ↦ rw (fits, whole) (inr (inr (ground (arith, n))))
          | inr part ↦
              rw (fits, part)
                (backtrack-increasing rows ms.needle_len ms.haystack_len false positions i i' h
                  (omega (arith, n)))
        ]
      ]
