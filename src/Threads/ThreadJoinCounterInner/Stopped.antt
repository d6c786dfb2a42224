-- ===== src/Threads/ThreadJoinCounterInner/Stopped.antt =====
-- When the `main` of examples/thread-join-counter-inner.c returns.
use clang_witness_inject.Prelude.{
  ℕ, suc, ◌+◌, ◌<◌, ◌≡◌, refl, Option, some, ◌==◌, arith, ap, subst, Bool-cases, Option-cases, inl,
  inr,
}
use clang_witness_inject.Threads.Pool.{update}
use clang_witness_inject.Threads.Pool.Tally.{sum, weight, sum-update, sum-none}
use clang_witness_inject.Threads.ThreadJoinCounterInner.{
  Globals, Pc, on_locking, finished, creating, returned, System, Step, create, create_fails, go,
  work, Reach, start, later, threads_total,
}
use clang_witness_inject.Threads.ThreadJoinCounterInner.Counts.{
  in_alive, counted, unfinished, rounds, left, Counts,
}
use clang_witness_inject.Threads.ThreadJoinCounterInner.MainMoves.{Counts-MainMove}
use clang_witness_inject.Threads.ThreadJoinCounterInner.Moves.{le-sum, Counts-Move}

sum-created :
    (f : Pc → ℕ) (n : ℕ) (g : Globals) (i : ℕ) (ts : ℕ → Option Pc)
    → i < n
    → Counts n g (creating i) ts
    → sum f n (update ts i (some on_locking)) ≡ sum f n ts + f on_locking
sum-created f n g i ts h c = elim (Option-cases (ts i)) [
  | inl e ↦ omega (arith, sum-update f n i ts (some on_locking) h, ap (weight f) e)
  | inr (l, e) ↦ absurd (omega (arith, c.created i l e))
]

Counts-create :
    (n : ℕ) (g : Globals) (i : ℕ) (ts : ℕ → Option Pc)
    → i < n
    → Counts n g (creating i) ts
    → Counts n g (creating (suc i)) (update ts i (some on_locking))
Counts-create n g i ts h c = record {
  alive_held = omega (arith, c.alive_held, sum-created in_alive n g i ts h c);
  alive_counts = omega (arith, c.alive_counts, sum-created counted n g i ts h c);
  in_rounds = omega (arith, h);
  created = λ j k q. elim (Bool-cases (i == j)) [
    | inl here ↦ ground arith
    | inr other ↦ ground (arith, c.created j k (ground arith))
  ];
  gathered = λ e. cc;
  cleared = λ e. cc;
}

Counts-create_fails :
    (n : ℕ) (g : Globals) (i : ℕ) (ts : ℕ → Option Pc)
    → i < n
    → Counts n g (creating i) ts
    → Counts n g (creating (suc i)) ts
Counts-create_fails n g i ts h c = record {
  alive_held = c.alive_held;
  alive_counts = c.alive_counts;
  in_rounds = omega (arith, h);
  created = λ j k q. omega (arith, c.created j k q);
  gathered = λ e. cc;
  cleared = λ e. cc;
}

step-Counts :
    {n : ℕ} {s t : System}
    → Step n s t
    → Counts n s.shared s.main s.threads
    → Counts n t.shared t.main t.threads
step-Counts {n} {s = s} (create i e h) c =
    Counts-create n s.shared i s.threads h (subst (λ m. Counts n s.shared m s.threads) e c)
step-Counts {n} {s = s} (create_fails i e h) c =
    Counts-create_fails n s.shared i s.threads h (subst (λ m. Counts n s.shared m s.threads) e c)
step-Counts {n} {s = s} (go {p} {p'} {g'} e m) c =
    Counts-MainMove n s.threads s.shared p g' p' m (subst (λ k. Counts n s.shared k s.threads) e c)
step-Counts {n} {s = s} (work i {l} {l'} {g'} e m) c =
    Counts-Move n s.threads s.shared s.main l g' l' i m e c

reach-Counts :
    {random : ℕ} {s : System}
    → Reach random s
    → Counts (threads_total random) s.shared s.main s.threads
reach-Counts {random} start = record {
  alive_held = omega (arith, sum-none in_alive (threads_total random));
  alive_counts = omega (arith, sum-none counted (threads_total random));
  in_rounds = omega arith;
  created = λ i l e. cc;
  gathered = λ e. cc;
  cleared = λ e. cc;
}
reach-Counts (later r st) = step-Counts st (reach-Counts r)

unfinished-zero : (l : Pc) → unfinished l ≡ 0 → l ≡ finished
unfinished-zero finished h = refl
unfinished-zero _ h = absurd (omega (arith, h))

-- When `main` has returned, every thread that it started has ended.
pub counter_inner_all_finished :
    {random : ℕ} {s : System} {l : Pc}
    → Reach random s
    → s.main ≡ returned
    → (i : ℕ) → s.threads i ≡ some l
    → l ≡ finished
counter_inner_all_finished {random} {s} {l} r e i q =
    let n = threads_total random in
    let c = reach-Counts r in
    let h : i < n = omega (arith, c.created i l q, ap (rounds n) e) in
    unfinished-zero l (omega (arith, c.cleared (ap left e), le-sum n s.threads unfinished i l h q))
