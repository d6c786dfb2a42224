-- ===== src/Fzy/Search/Tally.antt =====
-- No line is searched twice or left out by the workers of choices_search in examples/fzy.c.
use clang_witness_inject.Prelude.{
  ℕ, suc, ◌+◌, ◌-◌, ◌^◌, ◌<◌, ◌≤◌, ◌≡◌, refl, sym, ap, ◌∙◌, Bool, Option, none, some, List, [], ◌∷◌,
  ◌++◌, length, ◌==◌, arith, Bool-cases, inl, inr,
}
use clang_witness_inject.Fzy.Chars.{take, drop}
use clang_witness_inject.Fzy.Scores.{Scores}
use clang_witness_inject.Fzy.Choices.{Choice, ScoredResult}
use clang_witness_inject.Fzy.Match.{has_match}
use clang_witness_inject.Threads.Pool.{update}
use clang_witness_inject.Threads.Pool.Tally.{sum, weight, sum-none, sum-update}
use clang_witness_inject.Fzy.Search.{
  worker_get_next_batch, Pc, getting, searching, sorting, merging, finished, merge2, search_batch,
  System, Job, batch, after_batch, next_worker, Step, create, get, find, sort, merge, finish, join,
  Reach, start, later,
}
use clang_witness_inject.Fzy.Search.Merge.{count, count-append, count-merge2}
use clang_witness_inject.Fzy.Search.Known.{IsKnown, reach-IsKnown, left, finished-merging}
use clang_witness_inject.Fzy.Search.Batches.{
  take-append-drop, drop_behind, worker_get_next_batch_lem, IsAdvanced, reach-IsAdvanced,
}

module _ (sc : Scores) (job : Job sc) (p : ScoredResult sc → Bool) where
  open job use {strings, worker_count, qsort}

  -- What a worker is about to add.
  abbrev pub pending : Pc → ℕ
  pending (searching from to) = count sc p (batch sc job from to)
  pending _ = 0

  -- What is in the lines from `i` on.
  abbrev pub rest : ℕ → ℕ
  rest i = count sc p (search_batch sc job.rows job.search (drop i strings))

  search_batch-append :
      (xs ys : List Choice)
      → search_batch sc job.rows job.search (xs ++ ys)
        ≡ search_batch sc job.rows job.search xs ++ search_batch sc job.rows job.search ys
  unfolding search_batch
  search_batch-append [] ys = refl
  search_batch-append (c ∷ xs) ys = elim (Bool-cases (has_match job.search c.str)) [
    | inl e ↦ rw (e, search_batch, search_batch-append xs ys) refl
    | inr e ↦ rw (e, search_batch) (search_batch-append xs ys)
  ]

  rest-batch : (from to : ℕ) → from ≤ to → rest from ≡ count sc p (batch sc job from to) + rest to
  rest-batch from to h =
      let lines = drop from strings in
      let behind = drop_behind from to strings h in
      let cut = take-append-drop (to - from) lines in
      ap (λ xs. count sc p (search_batch sc job.rows job.search xs)) (sym cut)
      ∙ ap (count sc p) (search_batch-append (take (to - from) lines) (drop (to - from) lines))
      ∙ count-append sc p _ _
      ∙ ap
          (λ xs.
            count sc p (batch sc job from to) + count sc p (search_batch sc job.rows job.search xs))
          behind

  pending-after_batch :
      (from to : ℕ) → pending (after_batch (from, to)) ≡ count sc p (batch sc job from to)
  unfolding count search_batch
  pending-after_batch from to = elim (Bool-cases (from == to)) [
    | inl e ↦ let none_left : to - from ≡ 0 = ground arith in rw (e, none_left) refl
    | inr e ↦ rw e refl
  ]

  -- A worker moves on.
  pcs-sum :
      (pcs : ℕ → Option Pc) (w : ℕ) {l : Pc} (l' : Pc)
      → w < worker_count
      → pcs w ≡ some l
      → sum pending worker_count (update pcs w (some l')) + pending l
        ≡ sum pending worker_count pcs + pending l'
  pcs-sum pcs w l' h e =
      omega (arith, sum-update pending worker_count w pcs (some l') h, ap (weight pending) e)

  -- The result of a worker changes.
  results-sum :
      (results : ℕ → Option (List (ScoredResult sc))) (w : ℕ) {o : Option (List (ScoredResult sc))}
      (o' : Option (List (ScoredResult sc)))
      → w < worker_count
      → results w ≡ o
      → sum (count sc p) worker_count (update results w o') + weight (count sc p) o
        ≡ sum (count sc p) worker_count results + weight (count sc p) o'
  results-sum results w o' h e =
      omega (arith, sum-update (count sc p) worker_count w results o' h, ap (weight (count sc p)) e)

  abbrev counted : ℕ → (ℕ → Option (List (ScoredResult sc))) → (ℕ → Option Pc) → ℕ
  counted processed results pcs =
      sum (count sc p) worker_count results + sum pending worker_count pcs + rest processed

  -- Every result is at one place: with a worker, in a batch, or in a line that is still to come.
  abbrev IsTallied : System sc → Type 0
  IsTallied s = counted s.processed s.results s.pcs ≡ rest 0

  module _ (fits : length strings + 512 < 2 ^ 64)
      (sorts : (rs : List (ScoredResult sc)) → count sc p (qsort rs) ≡ count sc p rs) where
    step-IsTallied :
        {s t : System sc}
        → IsKnown sc job s
        → IsAdvanced sc job fits s
        → Step sc job s t
        → IsTallied s
        → IsTallied t
    unfolding count worker_get_next_batch
    step-IsTallied {s} k a (create i e) x =
        let at : left sc job s.main ≡ suc i = ap (left sc job) e in
        let (no_pc, no_result) = k.fresh i (omega (arith, at)) in
        let lt : i < worker_count = omega (arith, at, k.left_le) in
        omega (
          arith,
          x,
          results-sum s.results i (some []) lt no_result,
          sum-update pending worker_count i s.pcs (some getting) lt,
          ap (weight pending) no_pc,
        )
    step-IsTallied {s} k a (get w e) x =
        let next = worker_get_next_batch (length strings) s.processed in
        let laws = worker_get_next_batch_lem (length strings) s.processed fits a.processed_le in
        let split = rest-batch s.processed next.1 laws.1 in
        omega (
          arith,
          x,
          split,
          pcs-sum s.pcs w (after_batch next) (k.known w getting e) e,
          pending-after_batch s.processed next.1,
        )
    step-IsTallied {s} k a (find w from to {rs} e r) x =
        let lt = k.known w (searching from to) e in
        omega (
          arith,
          x,
          results-sum s.results w (some (rs ++ batch sc job from to)) lt r,
          pcs-sum s.pcs w getting lt e,
          count-append sc p rs (batch sc job from to),
        )
    step-IsTallied {s} k a (sort w {rs} e r) x =
        let lt = k.known w sorting e in
        omega (
          arith,
          x,
          results-sum s.results w (some (qsort rs)) lt r,
          pcs-sum s.pcs w (merging 0) lt e,
          sorts rs,
        )
    step-IsTallied {s} k a (merge w step last {list1} {list2} e h lt f r q) x =
        let v = next_worker w step in
        let w_lt = k.known w (merging step) e in
        let apart = finished-merging s.pcs v w f e in
        let kept : update s.results v none w ≡ some list1 = rw apart r in
        omega (
          arith,
          x,
          results-sum s.results v none lt q,
          results-sum (update s.results v none) w (some (merge2 sc list1 list2)) w_lt kept,
          pcs-sum s.pcs w (merging (suc step)) w_lt e,
          count-merge2 sc p list1 list2,
        )
    step-IsTallied {s} k a (finish w step e h) x =
        omega (arith, x, pcs-sum s.pcs w (finished step) (k.known w (merging step) e) e)
    step-IsTallied {s} k a (join last e f r) x = x

    pub reach-IsTallied : {s : System sc} → Reach sc job s → IsTallied s
    reach-IsTallied start =
        omega (arith, sum-none (count sc p) worker_count, sum-none pending worker_count)
    reach-IsTallied (later r st) =
        step-IsTallied (reach-IsKnown sc job r) (reach-IsAdvanced sc job fits r) st
          (reach-IsTallied r)
