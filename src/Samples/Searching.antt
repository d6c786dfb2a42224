-- ===== src/Samples/Searching.antt =====
-- A search of two lines with two workers, at which the theorems on choices_search are applied.
use clang_witness_inject.Prelude.{
  All, some, none, ◌+◌, ◌⊎◌, ◌≤◌, ◌*◌, ◌≡◌, refl, Bool, List, [], ◌∷◌, codes, arith, inl, inr,
}
use clang_witness_inject.Fzy.Scores.{IsOrder}
use clang_witness_inject.Fzy.Choices.{ScoredResult}
use clang_witness_inject.Fzy.Search.{
  creating, merge2, search_batch, returned, System, Job, Step, getting, worker_get_next_batch,
  create, get, find, sort, merge, finish, join, Reach, start, later,
}
use clang_witness_inject.Fzy.Search.Merge.{IsSorted, count, count-merge2, merge2-IsSorted}
use clang_witness_inject.Fzy.Search.Results.{IsSort, choices_search_results}
use clang_witness_inject.Fzy.Search.Progress.{choices_search_progress}
use clang_witness_inject.Fzy.Search.Short.{choices_search_short}
use clang_witness_inject.Fzy.Interface.Editing.{HasShort}
use clang_witness_inject.Fzy.Search.Ends.{steps, choices_search_ends}
use clang_witness_inject.Threads.Pool.{update}
use clang_witness_inject.Samples.Lister.{numbers, blank, names}

numbers-IsOrder : IsOrder numbers
numbers-IsOrder = record {
  eq_refl = λ a. ground arith;
  eq_lt = λ a b h. ground arith;
  eq_sym = λ a b h. ground arith;
  eq_trans = λ a b c h k. ground arith;
  lt_trans = λ a b c h k. ground arith;
  lt_eq = λ a b c h k. ground arith;
  eq_lt_trans = λ a b c h k. ground arith;
  lt_asym = λ a b h. ground arith;
  total = λ a b h k. ground arith;
}

-- One result after another goes to its place.
insertion : List (ScoredResult numbers) → List (ScoredResult numbers)
insertion [] = []
insertion (r ∷ rs) = merge2 numbers (r ∷ []) (insertion rs)

insertion-IsSort : IsSort numbers insertion
unfolding insertion count
insertion-IsSort = record { ordered = ordered; kept = kept }
  where
    ordered : (rs : List (ScoredResult numbers)) → IsSorted numbers (insertion rs)
    ordered [] = tt
    ordered (r ∷ rs) =
        merge2-IsSorted numbers numbers-IsOrder (r ∷ []) (insertion rs) (tt, tt) (ordered rs)

    kept :
        (p : ScoredResult numbers → Bool) (rs : List (ScoredResult numbers))
        → count numbers p (insertion rs) ≡ count numbers p rs
    kept p [] = refl
    kept p (r ∷ rs) = omega (arith, count-merge2 numbers p (r ∷ []) (insertion rs), kept p rs)

abbrev job : Job numbers
job = record {
  rows = blank;
  qsort = insertion;
  search = codes "m";
  strings = names;
  worker_count = 2;
}

abbrev found : List (ScoredResult numbers)
found = search_batch numbers blank (codes "m") names

-- Worker 1 takes both lines; worker 0 finds none left and joins it.
two_workers :
    (s : System numbers) × Reach numbers job s
    × (s.main ≡ returned (merge2 numbers (insertion []) (insertion found)))
unfolding worker_get_next_batch
two_workers = (
  _,
  later
      (later
        (later
          (later
            (later
              (later
                (later
                  (later
                    (later
                      (later (later (later start (create 1 refl)) (create 0 refl)) (get 1 refl))
                      (find 1 0 2 refl refl))
                    (get 1 refl))
                  (sort 1 refl refl))
                (finish 1 0 refl (inl refl)))
              (get 0 refl))
            (sort 0 refl refl))
          (merge 0 0 0 refl refl (omega arith) refl refl refl))
        (finish 0 1 refl (inr (omega arith))))
      (join 1 refl refl refl),
  refl,
)

choices_search_results_example :
    IsSorted numbers (merge2 numbers (insertion []) (insertion found))
    × ((p : ScoredResult numbers → Bool)
        → count numbers p (merge2 numbers (insertion []) (insertion found)) ≡ count numbers p found)
choices_search_results_example =
    choices_search_results numbers numbers-IsOrder job insertion-IsSort (omega arith) two_workers.1
      two_workers.2

-- Worker 1 is created, and worker 0 is not yet.
abbrev one_created : System numbers
one_created = record {
  processed = 0;
  pcs = update (λ w. none) 1 (some getting);
  results = update (λ w. none) 1 (some []);
  main = creating 1;
}

choices_search_progress_example :
    ((rs : List (ScoredResult numbers)) × (one_created.main ≡ returned rs))
    ⊎ ((t : System numbers) × Step numbers job one_created t)
choices_search_progress_example =
    choices_search_progress numbers job (omega arith) (later start (create 1 refl))

choices_search_ends_example : steps numbers job two_workers.1 ≤ 2 * (2 + 4) + 2 * 2 + 1
choices_search_ends_example = choices_search_ends numbers job (omega arith) two_workers.1

choices_search_short_example :
    All (HasShort numbers) (merge2 numbers (insertion []) (insertion found))
choices_search_short_example =
    choices_search_short numbers numbers-IsOrder job insertion-IsSort (omega arith) two_workers.1
      two_workers.2 (omega arith, (omega arith, tt))
