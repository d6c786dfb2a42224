-- ===== src/Threads/ThreadJoinCounterInner/Counts.antt =====
-- What the counter of examples/thread-join-counter-inner.c counts.
use clang_witness_inject.Prelude.{
  ℕ, zero, suc, ◌+◌, ◌<◌, ◌≤◌, ◌≡◌, Bool, true, false, Option, some, arith, Option-cases, inl, inr,
}
use clang_witness_inject.Threads.Pool.Tally.{sum}
use clang_witness_inject.Threads.ThreadJoinCounterInner.{
  Globals, Pc, on_locking, incrementing, on_unlocking, keep_locking, testing, keep_unlocking,
  data_locking, writing, data_unlocking, last_unlocking, off_locking, decrementing, off_unlocking,
  finished, MainPc, creating, all_locking, all_testing, all_sleeping, all_unlocking, none_testing,
  none_unlocking, returned,
}

abbrev pub count : Bool → ℕ
count true = 1
count false = 0

pub count-le : (b : Bool) → count b ≤ 1
count-le true = omega arith
count-le false = omega arith

-- 1 for a thread with `threads_alive_mutex`.
abbrev pub in_alive : Pc → ℕ
in_alive incrementing = 1
in_alive on_unlocking = 1
in_alive decrementing = 1
in_alive off_unlocking = 1
in_alive _ = 0

-- 1 for a thread that has not counted itself on.
abbrev pub early : Pc → ℕ
early on_locking = 1
early incrementing = 1
early _ = 0

-- 1 for a thread that has counted itself on and not off.
abbrev pub counted : Pc → ℕ
counted on_locking = 0
counted incrementing = 0
counted off_unlocking = 0
counted finished = 0
counted _ = 1

-- 1 for a thread that has not ended.
abbrev pub unfinished : Pc → ℕ
unfinished finished = 0
unfinished _ = 1

-- 1 where `main` has the mutex.
abbrev pub main_in : MainPc → ℕ
main_in all_testing = 1
main_in all_unlocking = 1
main_in none_testing = 1
main_in none_unlocking = 1
main_in _ = 0

-- The rounds that `main` has behind it.
abbrev pub rounds : ℕ → MainPc → ℕ
rounds n (creating i) = i
rounds n _ = n

-- `main` has seen all threads counted on.
abbrev gathered_by : MainPc → Bool
gathered_by (creating i) = false
gathered_by all_locking = false
gathered_by all_testing = false
gathered_by all_sleeping = false
gathered_by _ = true

-- And all counted off.
abbrev pub left : MainPc → Bool
left none_unlocking = true
left returned = true
left _ = false

pub record Counts (n : ℕ) (g : Globals) (m : MainPc) (ts : ℕ → Option Pc) : Type 0 where
  pub alive_held : count g.alive_mutex ≡ main_in m + sum in_alive n ts
  pub alive_counts : g.alive ≡ sum counted n ts
  pub in_rounds : rounds n m ≤ n
  pub created : (i : ℕ) (l : Pc) → ts i ≡ some l → i < rounds n m
  pub gathered : gathered_by m ≡ true → sum early n ts ≡ 0
  pub cleared : left m ≡ true → sum unfinished n ts ≡ 0

-- A thread is counted or early at most once, and if it is neither and has no mutex, it has ended.
weights-le :
    (l : Pc) → (early l + counted l ≤ 1) × (unfinished l ≤ early l + counted l + in_alive l)
weights-le on_locking = (omega arith, omega arith)
weights-le incrementing = (omega arith, omega arith)
weights-le on_unlocking = (omega arith, omega arith)
weights-le keep_locking = (omega arith, omega arith)
weights-le testing = (omega arith, omega arith)
weights-le keep_unlocking = (omega arith, omega arith)
weights-le data_locking = (omega arith, omega arith)
weights-le writing = (omega arith, omega arith)
weights-le data_unlocking = (omega arith, omega arith)
weights-le last_unlocking = (omega arith, omega arith)
weights-le off_locking = (omega arith, omega arith)
weights-le decrementing = (omega arith, omega arith)
weights-le off_unlocking = (omega arith, omega arith)
weights-le finished = (omega arith, omega arith)

pub sums-le :
    (n : ℕ) (ts : ℕ → Option Pc)
    → (sum early n ts + sum counted n ts ≤ n)
      × (sum unfinished n ts ≤ sum early n ts + sum counted n ts + sum in_alive n ts)
unfolding sum
sums-le zero ts = (omega arith, omega arith)
sums-le (suc n) ts = elim (Option-cases (ts n)) [
  | inl e ↦ rw e (omega (arith, (sums-le n ts).0), omega (arith, (sums-le n ts).1))
  | inr (l, e) ↦ rw e (
    omega (arith, (sums-le n ts).0, (weights-le l).0),
    omega (arith, (sums-le n ts).1, (weights-le l).1),
  )
]
