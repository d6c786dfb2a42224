-- ===== src/Threads/ThreadJoinCounterOuter/Counts.antt =====
-- What the counter and the mutexes of examples/thread-join-counter-outer.c count.
use clang_witness_inject.Prelude.{
  ℕ, zero, suc, ◌+◌, ◌<◌, ◌≤◌, ◌≡◌, refl, Bool, true, false, Option, some, arith, ap, Option-cases,
  inl, inr,
}
use clang_witness_inject.Threads.Pool.Tally.{sum}
use clang_witness_inject.Threads.ThreadJoinCounterOuter.{
  Globals, Pc, data_locking, writing, data_unlocking, alive_locking, decrementing, alive_unlocking,
  finished, MainPc, locking, incrementing, unlocking, creating, testing, wait_unlocking, returned,
  MainMove, lock, increment, unlock, all_created, wait_lock, wait, wake, leave, wait_unlock,
}

abbrev pub count : Bool → ℕ
count true = 1
count false = 0

pub count-le : (b : Bool) → count b ≤ 1
count-le true = omega arith
count-le false = omega arith

-- 1 for a thread with `data_mutex`.
abbrev pub in_data : Pc → ℕ
in_data writing = 1
in_data data_unlocking = 1
in_data _ = 0

-- 1 for a thread with `threads_alive_mutex`.
abbrev pub in_alive : Pc → ℕ
in_alive decrementing = 1
in_alive alive_unlocking = 1
in_alive _ = 0

-- 1 for a thread that has not counted itself off.
abbrev pub pending : Pc → ℕ
pending alive_unlocking = 0
pending finished = 0
pending _ = 1

-- 1 for a thread that has not ended.
abbrev pub unfinished : Pc → ℕ
unfinished finished = 0
unfinished _ = 1

-- 1 where `main` has the mutex.
abbrev main_in : MainPc → ℕ
main_in (incrementing i) = 1
main_in (unlocking i) = 1
main_in testing = 1
main_in wait_unlocking = 1
main_in _ = 0

-- 1 where `main` has counted a thread that it is to create.
abbrev pub extra : MainPc → ℕ
extra (unlocking i) = 1
extra (creating i) = 1
extra _ = 0

-- 1 inside a round.
abbrev active : MainPc → ℕ
active (incrementing i) = 1
active (unlocking i) = 1
active (creating i) = 1
active _ = 0

-- The rounds that `main` has behind it.
abbrev pub rounds : ℕ → MainPc → ℕ
rounds n (locking i) = i
rounds n (incrementing i) = i
rounds n (unlocking i) = i
rounds n (creating i) = i
rounds n _ = n

abbrev pub left : MainPc → Bool
left wait_unlocking = true
left returned = true
left _ = false

pub record Counts (n : ℕ) (g : Globals) (m : MainPc) (ts : ℕ → Option Pc) : Type 0 where
  pub alive_held : count g.alive_mutex ≡ main_in m + sum in_alive n ts
  pub data_held : count g.data_mutex ≡ sum in_data n ts
  pub alive_counts : sum pending n ts + extra m ≤ g.alive
  pub in_rounds : rounds n m + active m ≤ n
  pub created : (i : ℕ) (l : Pc) → ts i ≡ some l → i < rounds n m
  pub cleared : left m ≡ true → sum unfinished n ts ≡ 0

-- A thread that has not ended is to count itself off, or has the mutex.
unfinished-le : (l : Pc) → unfinished l ≤ pending l + in_alive l
unfinished-le data_locking = omega arith
unfinished-le writing = omega arith
unfinished-le data_unlocking = omega arith
unfinished-le alive_locking = omega arith
unfinished-le decrementing = omega arith
unfinished-le alive_unlocking = omega arith
unfinished-le finished = omega arith

sum-unfinished-le :
    (n : ℕ) (ts : ℕ → Option Pc) → sum unfinished n ts ≤ sum pending n ts + sum in_alive n ts
unfolding sum
sum-unfinished-le zero ts = omega arith
sum-unfinished-le (suc n) ts = elim (Option-cases (ts n)) [
  | inl e ↦ rw e (omega (arith, sum-unfinished-le n ts))
  | inr (l, e) ↦ rw e (omega (arith, sum-unfinished-le n ts, unfinished-le l))
]

module _ (n : ℕ) (ts : ℕ → Option Pc) where
  pub Counts-MainMove :
      (g : Globals) (m : MainPc) (g' : Globals) (m' : MainPc)
      → MainMove n g m g' m'
      → Counts n g m ts
      → Counts n g' m' ts
  Counts-MainMove g m g' m' (lock _ i h free) c = record {
    alive_held = omega (arith, c.alive_held, ap count free);
    data_held = c.data_held;
    alive_counts = c.alive_counts;
    in_rounds = omega (arith, h);
    created = c.created;
    cleared = λ e. cc;
  }
  Counts-MainMove g m g' m' (increment _ i) c = record {
    alive_held = c.alive_held;
    data_held = c.data_held;
    alive_counts = omega (arith, c.alive_counts);
    in_rounds = c.in_rounds;
    created = c.created;
    cleared = λ e. cc;
  }
  Counts-MainMove g m g' m' (unlock _ i) c = record {
    alive_held = omega (arith, c.alive_held, count-le g.alive_mutex);
    data_held = c.data_held;
    alive_counts = c.alive_counts;
    in_rounds = c.in_rounds;
    created = c.created;
    cleared = λ e. cc;
  }
  Counts-MainMove g m g' m' (all_created _ i h) c = record {
    alive_held = c.alive_held;
    data_held = c.data_held;
    alive_counts = c.alive_counts;
    in_rounds = omega arith;
    created = λ i' l e. omega (arith, c.created i' l e, h, c.in_rounds);
    cleared = λ e. cc;
  }
  Counts-MainMove g m g' m' (wait_lock _ free) c = record {
    alive_held = omega (arith, c.alive_held, ap count free);
    data_held = c.data_held;
    alive_counts = c.alive_counts;
    in_rounds = c.in_rounds;
    created = c.created;
    cleared = λ e. cc;
  }
  Counts-MainMove g m g' m' (wait _ h) c = record {
    alive_held = omega (arith, c.alive_held, count-le g.alive_mutex);
    data_held = c.data_held;
    alive_counts = c.alive_counts;
    in_rounds = c.in_rounds;
    created = c.created;
    cleared = λ e. cc;
  }
  Counts-MainMove g m g' m' (wake _ free) c = record {
    alive_held = omega (arith, c.alive_held, ap count free);
    data_held = c.data_held;
    alive_counts = c.alive_counts;
    in_rounds = c.in_rounds;
    created = c.created;
    cleared = λ e. cc;
  }
  Counts-MainMove g m g' m' (leave _ h) c = record {
    alive_held = c.alive_held;
    data_held = c.data_held;
    alive_counts = c.alive_counts;
    in_rounds = c.in_rounds;
    created = c.created;
    cleared = λ e.
        omega
          (arith, h, sum-unfinished-le n ts, c.alive_counts, c.alive_held, count-le g.alive_mutex);
  }
  Counts-MainMove g m g' m' (wait_unlock _) c = record {
    alive_held = omega (arith, c.alive_held, count-le g.alive_mutex);
    data_held = c.data_held;
    alive_counts = c.alive_counts;
    in_rounds = c.in_rounds;
    created = c.created;
    cleared = λ e. c.cleared refl;
  }
