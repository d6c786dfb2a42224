-- ===== src/Fzy/Search/Results.antt =====
-- What choices_search in examples/fzy.c leaves in `results`.
use mathlib.Core.Option.{some-injective}
use clang_witness_inject.Prelude.{
  ℕ, zero, suc, ◌+◌, ◌^◌, ◌<◌, ◌≡◌, refl, sym, ap, ◌∙◌, subst, Bool, true, false, Option, none,
  some, List, [], length, ◌==◌, arith, Bool-cases, inl, inr, ==_iff,
}
use clang_witness_inject.Fzy.Scores.{Scores, IsOrder}
use clang_witness_inject.Fzy.Choices.{ScoredResult}
use clang_witness_inject.Threads.Pool.{update}
use clang_witness_inject.Threads.Pool.Tally.{sum, weight}
use clang_witness_inject.Fzy.Search.{
  Pc, getting, merging, finished, merge2, search_batch, returned, System, Job, after_batch,
  next_worker, Step, create, get, find, sort, merge, finish, join, Reach, start, later,
}
use clang_witness_inject.Fzy.Search.Merge.{IsSorted, count, merge2-IsSorted}
use clang_witness_inject.Fzy.Search.Known.{reach-IsKnown}
use clang_witness_inject.Fzy.Search.Batches.{drop_all, reach-IsAdvanced}
use clang_witness_inject.Fzy.Search.Tally.{pending, rest, reach-IsTallied}
use clang_witness_inject.Fzy.Search.Cover.{root-IsMerged}

-- What the C library says of qsort.
pub record IsSort (sc : Scores) (qsort : List (ScoredResult sc) → List (ScoredResult sc))
    : Type 0 where
  pub ordered : (rs : List (ScoredResult sc)) → IsSorted sc (qsort rs)
  pub kept :
      (p : ScoredResult sc → Bool) (rs : List (ScoredResult sc))
      → count sc p (qsort rs) ≡ count sc p rs

-- The worker has sorted its results.
abbrev has_sorted : Pc → Bool
has_sorted (merging step) = true
has_sorted (finished step) = true
has_sorted _ = false

has_sorted-after_batch : (from to : ℕ) → has_sorted (after_batch (from, to)) ≡ false
has_sorted-after_batch from to = elim (Bool-cases (from == to)) [
  | inl e ↦ rw e refl
  | inr e ↦ rw e refl
]

-- A sum to which only the first thread adds.
sum-first :
    {A : Type 0} (f : A → ℕ) (n : ℕ) (ts : ℕ → Option A)
    → 0 < n
    → ((v : ℕ) → 0 < v → v < n → weight f (ts v) ≡ 0)
    → sum f n ts ≡ weight f (ts 0)
unfolding sum
sum-first f zero ts lt h = absurd (omega arith)
sum-first f (suc zero) ts lt h = omega arith
sum-first f (suc (suc n)) ts lt h = omega (
  arith,
  h (suc n) (omega arith) (omega arith),
  sum-first f (suc n) ts (omega arith) (λ v a b. h v a (omega arith)),
)

-- No lines are left behind the last.
rest-length :
    (sc : Scores) (job : Job sc) (p : ScoredResult sc → Bool)
    → rest sc job p (length job.strings) ≡ 0
unfolding count search_batch
rest-length sc job p = rw (drop_all job.strings) refl

module _ (sc : Scores) (order : IsOrder sc) (job : Job sc) (sorts : IsSort sc job.qsort) where
  open job use {strings, worker_count, qsort}

  abbrev Ordered : (ℕ → Option Pc) → (ℕ → Option (List (ScoredResult sc))) → Type 0
  Ordered pcs results =
      (u : ℕ) (l : Pc) (rs : List (ScoredResult sc))
      → pcs u ≡ some l
      → has_sorted l ≡ true
      → results u ≡ some rs
      → IsSorted sc rs

  Ordered-work :
      (pcs : ℕ → Option Pc) (results : ℕ → Option (List (ScoredResult sc))) (w : ℕ) (l' : Pc)
      (list : List (ScoredResult sc))
      → (has_sorted l' ≡ true → IsSorted sc list)
      → Ordered pcs results
      → Ordered (update pcs w (some l')) (update results w (some list))
  Ordered-work pcs results w l' list new o u l rs e h r = elim (Bool-cases (w == u)) [
    | inl same ↦
        let is : l' ≡ l = cc (rw same at e) in
        let holds : list ≡ rs = some-injective _ _ (rw same at r) in
        subst (IsSorted sc) holds (new (ap has_sorted is ∙ h))
    | inr other ↦ o u l rs (rw other at e) h (rw other at r)
  ]

  -- The worker keeps its list.
  Ordered-move :
      (pcs : ℕ → Option Pc) (results : ℕ → Option (List (ScoredResult sc))) (w : ℕ) {l : Pc}
      (l' : Pc)
      → pcs w ≡ some l
      → (has_sorted l' ≡ true → has_sorted l ≡ true)
      → Ordered pcs results
      → Ordered (update pcs w (some l')) results
  Ordered-move pcs results w {l} l' at same o u k rs e h r = elim (Bool-cases (w == u)) [
    | inl here ↦
        let is : l' ≡ k = cc (rw here at e) in
        let back : w ≡ u = (==_iff w u).0 here in
        o u l rs (ap pcs (sym back) ∙ at) (same (ap has_sorted is ∙ h)) r
    | inr other ↦ o u k rs (rw other at e) h r
  ]

  Ordered-freed :
      (pcs : ℕ → Option Pc) (results : ℕ → Option (List (ScoredResult sc))) (v : ℕ)
      → Ordered pcs results
      → Ordered pcs (update results v none)
  Ordered-freed pcs results v o u l rs e h r = elim (Bool-cases (v == u)) [
    | inl same ↦ cc (rw same at r)
    | inr other ↦ o u l rs e h (rw other at r)
  ]

  step-Ordered :
      {s t : System sc} → Step sc job s t → Ordered s.pcs s.results → Ordered t.pcs t.results
  step-Ordered {s} (create i e) o = Ordered-work s.pcs s.results i getting [] (λ h. cc) o
  step-Ordered {s} (get w e) o =
      Ordered-move s.pcs s.results w _ e (λ h. cc (has_sorted-after_batch _ _)) o
  step-Ordered {s} (find w from to e r) o = Ordered-work s.pcs s.results w getting _ (λ h. cc) o
  step-Ordered {s} (sort w {rs} e r) o =
      Ordered-work s.pcs s.results w (merging 0) (qsort rs) (λ h. sorts.ordered rs) o
  step-Ordered {s} (merge w step last {list1} {list2} e h lt f r q) o =
      let v = next_worker w step in
      Ordered-work s.pcs (update s.results v none) w (merging (suc step)) (merge2 sc list1 list2)
        (λ g.
          merge2-IsSorted sc order list1 list2 (o w (merging step) list1 e refl r)
            (o v (finished last) list2 f refl q))
        (Ordered-freed s.pcs s.results v o)
  step-Ordered {s} (finish w step e h) o =
      Ordered-move s.pcs s.results w (finished step) e (λ h. refl) o
  step-Ordered {s} (join last e f r) o = o

  reach-Ordered : {s : System sc} → Reach sc job s → Ordered s.pcs s.results
  reach-Ordered start = λ u l rs e. cc
  reach-Ordered (later r st) = step-Ordered st (reach-Ordered r)

  module _ (fits : length strings + 512 < 2 ^ 64) where
    -- The results of worker 0 at its end.
    root_results :
        {s : System sc} {last : ℕ} {rs : List (ScoredResult sc)}
        → Reach sc job s
        → s.pcs 0 ≡ some (finished last)
        → s.results 0 ≡ some rs
        → (p : ScoredResult sc → Bool)
        → count sc p rs ≡ count sc p (search_batch sc job.rows job.search strings)
    root_results {s} {last} {rs} r e q p =
        let lt = (reach-IsKnown sc job r).known 0 (finished last) e in
        let merged = root-IsMerged sc job r e in
        let held =
          sum-first (count sc p) worker_count s.results lt
            (λ v a b. ap (weight (count sc p)) (merged v a b).1) in
        let waiting =
          sum-first (pending sc job p) worker_count s.pcs lt
            (λ v a b. ap (weight (pending sc job p)) (merged v a b).0.1) in
        let all = (reach-IsAdvanced sc job fits r).over 0 (finished last) e refl in
        let behind = ap (rest sc job p) all ∙ rest-length sc job p in
        omega (
          arith,
          reach-IsTallied sc job p fits (sorts.kept p) r,
          held,
          waiting,
          behind,
          ap (weight (count sc p)) q,
          ap (weight (pending sc job p)) e,
        )

    -- When choices_search returns, whatever the order in which its workers ran, the results are
    -- sorted, and each result is there as often as it is in one search of all lines, for lines that
    -- fit into memory, scores that are ordered and a qsort that sorts.
    pub choices_search_results :
        {s : System sc} {rs : List (ScoredResult sc)}
        → Reach sc job s
        → s.main ≡ returned rs
        → IsSorted sc rs
          × ((p : ScoredResult sc → Bool)
              → count sc p rs ≡ count sc p (search_batch sc job.rows job.search strings))
    choices_search_results start e = cc
    choices_search_results (later r (create i h)) e = cc
    choices_search_results (later r (get w h)) e = choices_search_results r e
    choices_search_results (later r (find w from to h q)) e = choices_search_results r e
    choices_search_results (later r (sort w h q)) e = choices_search_results r e
    choices_search_results (later r (merge w step last h n lt f q k)) e = choices_search_results r e
    choices_search_results (later r (finish w step h q)) e = choices_search_results r e
    choices_search_results {rs = rs} (later r (join last {rs = list} h f q)) e =
        let same : list ≡ rs = cc in
        subst
          (λ xs.
            IsSorted sc xs
            × ((p : ScoredResult sc → Bool)
                → count sc p xs ≡ count sc p (search_batch sc job.rows job.search strings)))
          same (reach-Ordered r 0 (finished last) list f refl q, root_results r f q)
