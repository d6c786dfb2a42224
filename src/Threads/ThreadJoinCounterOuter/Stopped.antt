-- ===== src/Threads/ThreadJoinCounterOuter/Stopped.antt =====
-- When the `main` of examples/thread-join-counter-outer.c returns, and who accesses what meanwhile.
use clang_witness_inject.Prelude.{
  ℕ, suc, ◌+◌, ◌<◌, ◌≡◌, refl, Option, some, ◌==◌, arith, ap, subst, Bool-cases, Option-cases, inl,
  inr,
}
use native.Mathlib.Decide.{ℕ_discrete}
use clang_witness_inject.Threads.Pool.{update}
use clang_witness_inject.Threads.Pool.Tally.{sum, weight, sum-update, pair-le-sum, sum-none}
use clang_witness_inject.Threads.ThreadJoinCounterOuter.{
  Globals, Pc, data_locking, writing, decrementing, finished, locking, creating, returned, System,
  Step, create, create_fails, go, work, Reach, start, later, threads_total,
}
use clang_witness_inject.Threads.ThreadJoinCounterOuter.Moves.{Counts-Move, le-sum}
use clang_witness_inject.Threads.ThreadJoinCounterOuter.Counts.{
  count-le, in_data, in_alive, pending, unfinished, left, rounds, Counts, Counts-MainMove,
}

-- No thread is in the place of a round to come.
none-weight :
    (f : Pc → ℕ) (n : ℕ) (g : Globals) (i : ℕ) (ts : ℕ → Option Pc)
    → Counts n g (creating i) ts
    → weight f (ts i) ≡ 0
none-weight f n g i ts c = elim (Option-cases (ts i)) [
  | inl e ↦ ap (weight f) e
  | inr (l, e) ↦ absurd (omega (arith, c.created i l e))
]

sum-created :
    (f : Pc → ℕ) (n : ℕ) (g : Globals) (i : ℕ) (ts : ℕ → Option Pc)
    → Counts n g (creating i) ts
    → sum f n (update ts i (some data_locking)) ≡ sum f n ts + f data_locking
sum-created f n g i ts c = omega (
  arith,
  none-weight f n g i ts c,
  c.in_rounds,
  sum-update f n i ts (some data_locking) (omega (arith, c.in_rounds)),
)

Counts-create :
    (n : ℕ) (g : Globals) (i : ℕ) (ts : ℕ → Option Pc)
    → Counts n g (creating i) ts
    → Counts n g (locking (suc i)) (update ts i (some data_locking))
Counts-create n g i ts c = record {
  alive_held = omega (arith, c.alive_held, sum-created in_alive n g i ts c);
  data_held = omega (arith, c.data_held, sum-created in_data n g i ts c);
  alive_counts = omega (arith, c.alive_counts, sum-created pending n g i ts c);
  in_rounds = omega (arith, c.in_rounds);
  created = λ j k q. elim (Bool-cases (i == j)) [
    | inl here ↦ ground arith
    | inr other ↦ ground (arith, c.created j k (ground arith))
  ];
  cleared = λ e. cc;
}

Counts-create_fails :
    (n : ℕ) (g : Globals) (i : ℕ) (ts : ℕ → Option Pc)
    → Counts n g (creating i) ts
    → Counts n g (locking (suc i)) ts
Counts-create_fails n g i ts c = record {
  alive_held = c.alive_held;
  data_held = c.data_held;
  alive_counts = omega (arith, c.alive_counts);
  in_rounds = omega (arith, c.in_rounds);
  created = λ j k q. omega (arith, c.created j k q);
  cleared = λ e. cc;
}

step-Counts :
    {n : ℕ} {s t : System}
    → Step n s t
    → Counts n s.shared s.main s.threads
    → Counts n t.shared t.main t.threads
step-Counts {n} {s = s} (create i e) c =
    Counts-create n s.shared i s.threads (subst (λ m. Counts n s.shared m s.threads) e c)
step-Counts {n} {s = s} (create_fails i e) c =
    Counts-create_fails n s.shared i s.threads (subst (λ m. Counts n s.shared m s.threads) e c)
step-Counts {n} {s = s} (go {p} {p'} {g'} e m) c =
    Counts-MainMove n s.threads s.shared p g' p' m (subst (λ k. Counts n s.shared k s.threads) e c)
step-Counts {n} {s = s} (work i {l} {l'} {g'} e m) c =
    Counts-Move n s.threads s.shared s.main l g' l' i m e c

reach-Counts :
    {random : ℕ} {s : System}
    → Reach random s
    → Counts (threads_total random) s.shared s.main s.threads
reach-Counts {random} start = record {
  alive_held = omega (arith, sum-none in_alive (threads_total random));
  data_held = omega (arith, sum-none in_data (threads_total random));
  alive_counts = omega (arith, sum-none pending (threads_total random));
  in_rounds = omega arith;
  created = λ i l e. cc;
  cleared = λ e. cc;
}
reach-Counts (later r st) = step-Counts st (reach-Counts r)

unfinished-zero : (l : Pc) → unfinished l ≡ 0 → l ≡ finished
unfinished-zero finished h = refl
unfinished-zero _ h = absurd (omega (arith, h))

-- When `main` has returned, every thread that it started has ended.
pub counter_outer_all_finished :
    {random : ℕ} {s : System} {l : Pc}
    → Reach random s
    → s.main ≡ returned
    → (i : ℕ) → s.threads i ≡ some l
    → l ≡ finished
counter_outer_all_finished {random} {s} {l} r e i q =
    let n = threads_total random in
    let c = reach-Counts r in
    let h : i < n = omega (arith, c.created i l q, ap (rounds n) e) in
    unfinished-zero l (omega (arith, c.cleared (ap left e), le-sum n s.threads unfinished i l h q))

-- A thread that is about to decrement the counter finds it above 0.
counter_outer_above_zero :
    {random : ℕ} {s : System}
    → Reach random s
    → (i : ℕ) → s.threads i ≡ some decrementing
    → 0 < s.shared.alive
counter_outer_above_zero {random} {s} r i q =
    let n = threads_total random in
    let c = reach-Counts r in
    let h : i < n = omega (arith, c.created i decrementing q, c.in_rounds) in
    omega (arith, c.alive_counts, le-sum n s.threads pending i decrementing h q)

-- In no reachable state do two threads stand before the write of `data`, so it is not a race.
counter_outer_one_writer :
    {random : ℕ} {s : System}
    → Reach random s
    → (i j : ℕ) → s.threads i ≡ some writing
    → s.threads j ≡ some writing
    → i ≡ j
counter_outer_one_writer {random} {s} r i j e f = elim (ℕ_discrete i j) [
  | yes same ↦ same
  | no other ↦
      let n = threads_total random in
      let c = reach-Counts r in
      absurd (
        omega (
          arith,
          c.data_held,
          count-le s.shared.data_mutex,
          pair-le-sum in_data n i j s.threads (omega (arith, c.created i writing e, c.in_rounds))
              (omega (arith, c.created j writing f, c.in_rounds)) other,
          ap (weight in_data) e,
          ap (weight in_data) f,
        ))
]
