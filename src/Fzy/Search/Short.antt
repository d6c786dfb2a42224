-- ===== src/Fzy/Search/Short.antt =====
-- The results of choices_search in examples/fzy.c fit into the line that the user edits.
use clang_witness_inject.Prelude.{
  ◌+◌, ◌^◌, ◌<◌, ◌≡◌, refl, ◌∙◌, Bool, not, List, [], ◌∷◌, length, All, ltb, ltb→lt, lt→ltb, arith,
  Bool-cases, inl, inr,
}
use clang_witness_inject.Fzy.Scores.{Scores, IsOrder}
use clang_witness_inject.Fzy.Choices.{Choice, ScoredResult}
use clang_witness_inject.Fzy.Match.{has_match}
use clang_witness_inject.Fzy.Search.{search_batch, Job, System, Reach, returned}
use clang_witness_inject.Fzy.Search.Merge.{count}
use clang_witness_inject.Fzy.Search.Results.{IsSort, choices_search_results}
use clang_witness_inject.Fzy.Interface.Editing.{IsShort, HasShort}

module _ (sc : Scores) where
  abbrev is_long : ScoredResult sc → Bool
  is_long r = not (ltb (length r.str.str) 4096)

  none_long : (rs : List (ScoredResult sc)) → count sc is_long rs ≡ 0 → All (HasShort sc) rs
  unfolding count
  none_long [] h = tt
  none_long (r ∷ rs) h = elim (Bool-cases (ltb (length r.str.str) 4096)) [
    | inl short ↦
        (ltb→lt _ _ short, let none_left = rw short at h in none_long rs (omega (arith, none_left)))
    | inr long ↦ absurd (omega (arith, rw long at h))
  ]

  search_batch_short :
      (job : Job sc) (lines : List Choice)
      → All IsShort lines
      → count sc is_long (search_batch sc job.rows job.search lines) ≡ 0
  unfolding count search_batch
  search_batch_short job [] h = refl
  search_batch_short job (c ∷ cs) h = elim (Bool-cases (has_match job.search c.str)) [
    | inl e ↦ rw (e, lt→ltb _ _ h.0) (omega (arith, search_batch_short job cs h.1))
    | inr e ↦ rw e (search_batch_short job cs h.1)
  ]

  -- If every line is shorter than the array of the search, so is every result when choices_search
  -- returns, for lines that fit into memory, scores that are ordered and a qsort that sorts.
  pub choices_search_short :
      (order : IsOrder sc) (job : Job sc) (sorts : IsSort sc job.qsort)
      → length job.strings + 512 < 2 ^ 64
      → {s : System sc} {rs : List (ScoredResult sc)} → Reach sc job s
      → s.main ≡ returned rs
      → All IsShort job.strings
      → All (HasShort sc) rs
  choices_search_short order job sorts fits {s} {rs} r e h = none_long rs (
      (choices_search_results sc order job sorts fits r e).1 is_long
      ∙ search_batch_short job job.strings h)
