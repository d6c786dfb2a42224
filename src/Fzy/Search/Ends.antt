-- ===== src/Fzy/Search/Ends.antt =====
-- The steps that choices_search in examples/fzy.c and its workers can take are bounded.
use Prim.Native.Nat.{min}
use native.Mathlib.Nat.{pow-suc}
use clang_witness_inject.Prelude.{
  ℕ, zero, suc, ◌+◌, ◌*◌, ◌^◌, ◌<◌, ◌≤◌, ◌≡◌, ap, Option, some, length, ◌==◌, arith, Bool-cases,
  Option-cases, inl, inr,
}
use clang_witness_inject.Fzy.Scores.{Scores}
use clang_witness_inject.Threads.Pool.{update}
use clang_witness_inject.Threads.Pool.Tally.{sum, weight, sum-update}
use clang_witness_inject.Fzy.Search.{
  Pc, getting, searching, sorting, merging, finished, MainPc, creating, returned, System, Job,
  after_batch, worker_get_next_batch, Step, create, get, find, sort, merge, finish, join, Reach,
  start, later,
}
use clang_witness_inject.Fzy.Search.Known.{IsKnown, reach-IsKnown, left}
use clang_witness_inject.Fzy.Search.Partner.{next_worker_lem}
use clang_witness_inject.Fzy.Search.Batches.{
  worker_get_next_batch_lem, IsAdvanced, reach-IsAdvanced,
}

sum-le_times :
    {A : Type 0} (f : A → ℕ) (c n : ℕ) (ts : ℕ → Option A)
    → ((a : A) → f a ≤ c)
    → sum f n ts ≤ n * c
unfolding sum
sum-le_times f c zero ts h = omega arith
sum-le_times f c (suc n) ts h =
    let rest = sum-le_times f c n ts h in
    elim (Option-cases (ts n)) [
      | inl e ↦ rw e (grind (arith, rest))
      | inr (a, e) ↦ rw e (grind (arith, rest, h a))
    ]

below_power : (step : ℕ) → step < 2 ^ step
below_power zero = omega arith
below_power (suc step) = omega (arith, pow-suc 2 step, below_power step)

module _ (sc : Scores) (job : Job sc) where
  -- The number of steps of a run.
  unfoldable pub steps : {s : System sc} → Reach sc job s → ℕ
  steps start = 0
  steps (later r st) = suc (steps r)

module _ (sc : Scores) (job : Job sc) (fits : length job.strings + 512 < 2 ^ 64) where
  open job use {strings, worker_count}

  -- How far a worker has come, but for the lines that it has taken.
  abbrev spent : Pc → ℕ
  spent getting = 1
  spent (searching from to) = 0
  spent sorting = 2
  spent (merging step) = 3 + min step worker_count
  spent (finished step) = worker_count + 4

  spent-le : (l : Pc) → spent l ≤ worker_count + 4
  spent-le getting = omega arith
  spent-le (searching from to) = omega arith
  spent-le sorting = omega arith
  spent-le (merging step) = omega arith
  spent-le (finished step) = omega arith

  abbrev done : MainPc sc → ℕ
  done (creating i) = 0
  done (returned rs) = 1

  done-le : (main : MainPc sc) → done main ≤ 1
  done-le (creating i) = omega arith
  done-le (returned rs) = omega arith

  abbrev progress : System sc → ℕ
  progress s = sum spent worker_count s.pcs + 2 * s.processed + done s.main

  pcs-sum :
      (pcs : ℕ → Option Pc) (w : ℕ) {l : Pc} (l' : Pc)
      → w < worker_count
      → pcs w ≡ some l
      → sum spent worker_count (update pcs w (some l')) + spent l
        ≡ sum spent worker_count pcs + spent l'
  pcs-sum pcs w l' h e =
      omega (arith, sum-update spent worker_count w pcs (some l') h, ap (weight spent) e)

  -- A worker that gets a batch gets lines or goes on to sort.
  get-spent :
      (processed from to : ℕ)
      → from ≡ processed
      → from ≤ to
      → spent getting + 2 * processed < spent (after_batch (from, to)) + 2 * to
  get-spent processed from to e le = elim (Bool-cases (from == to)) [
    | inl same ↦ rw same (ground arith)
    | inr other ↦ rw other (ground arith)
  ]

  step-progress :
      {s t : System sc}
      → IsKnown sc job s
      → IsAdvanced sc job fits s
      → Step sc job s t
      → progress s < progress t
  step-progress {s} k a (create i e) =
      let at : left sc job s.main ≡ suc i = ap (left sc job) e in
      let no_pc = (k.fresh i (omega (arith, at))).0 in
      let lt : i < worker_count = omega (arith, at, k.left_le) in
      omega (
        arith,
        sum-update spent worker_count i s.pcs (some getting) lt,
        ap (weight spent) no_pc,
        ap done e,
      )
  step-progress {s} k a (get w e) =
      let next = worker_get_next_batch (length strings) s.processed in
      let laws = worker_get_next_batch_lem (length strings) s.processed fits a.processed_le in
      omega (
        arith,
        get-spent s.processed next.0 next.1 laws.0 laws.1,
        pcs-sum s.pcs w (after_batch next) (k.known w getting e) e,
      )
  step-progress {s} k a (find w from to e r) =
      omega (arith, pcs-sum s.pcs w getting (k.known w _ e) e)
  step-progress {s} k a (sort w e r) = omega (arith, pcs-sum s.pcs w (merging 0) (k.known w _ e) e)
  step-progress {s} k a (merge w step last e m lt f r q) = omega (
    arith,
    (next_worker_lem w step m).0,
    lt,
    below_power step,
    pcs-sum s.pcs w (merging (suc step)) (k.known w _ e) e,
  )
  step-progress {s} k a (finish w step e m) =
      omega (arith, pcs-sum s.pcs w (finished step) (k.known w _ e) e)
  step-progress {s} k a (join last e f r) = omega (arith, ap done e)

  steps-le : {s : System sc} (r : Reach sc job s) → steps sc job r ≤ progress s
  unfolding steps
  steps-le start = omega arith
  steps-le (later r st) = omega (
    arith,
    steps-le r,
    step-progress (reach-IsKnown sc job r) (reach-IsAdvanced sc job fits r) st,
  )

  -- No run of choices_search has more than 2 steps for each line, `worker_count + 4` for each worker
  -- and one more, where the lines fit into memory.
  pub choices_search_ends :
      {s : System sc} (r : Reach sc job s)
      → steps sc job r ≤ worker_count * (worker_count + 4) + 2 * length strings + 1
  choices_search_ends {s} r = omega (
    arith,
    steps-le r,
    sum-le_times spent (worker_count + 4) worker_count s.pcs spent-le,
    (reach-IsAdvanced sc job fits r).processed_le,
    done-le s.main,
  )
