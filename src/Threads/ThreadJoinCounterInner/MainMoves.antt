-- ===== src/Threads/ThreadJoinCounterInner/MainMoves.antt =====
-- The counts of examples/thread-join-counter-inner.c when `main` moves.
use clang_witness_inject.Prelude.{ℕ, refl, Option, arith, ap}
use clang_witness_inject.Threads.ThreadJoinCounterInner.{
  Globals, Pc, MainPc, MainMove, all_created, all_lock, all_wait, all_wake, all_leave, all_unlock,
  stop_lock, stop, stop_unlock, none_lock, none_wait, none_wake, none_leave, none_unlock,
}
use clang_witness_inject.Threads.ThreadJoinCounterInner.Counts.{count, count-le, Counts, sums-le}

module _ (n : ℕ) (ts : ℕ → Option Pc) where
  pub Counts-MainMove :
      (g : Globals) (m : MainPc) (g' : Globals) (m' : MainPc)
      → MainMove n g m g' m'
      → Counts n g m ts
      → Counts n g' m' ts
  Counts-MainMove g m g' m' (all_created _ i h) c = record {
    alive_held = c.alive_held;
    alive_counts = c.alive_counts;
    in_rounds = omega arith;
    created = λ j l e. omega (arith, c.created j l e, h, c.in_rounds);
    gathered = λ e. cc;
    cleared = λ e. cc;
  }
  Counts-MainMove g m g' m' (all_lock _ free) c = record {
    alive_held = omega (arith, c.alive_held, ap count free);
    alive_counts = c.alive_counts;
    in_rounds = c.in_rounds;
    created = c.created;
    gathered = λ e. cc;
    cleared = λ e. cc;
  }
  Counts-MainMove g m g' m' (all_wait _ h) c = record {
    alive_held = omega (arith, c.alive_held, count-le g.alive_mutex);
    alive_counts = c.alive_counts;
    in_rounds = c.in_rounds;
    created = c.created;
    gathered = λ e. cc;
    cleared = λ e. cc;
  }
  Counts-MainMove g m g' m' (all_wake _ free) c = record {
    alive_held = omega (arith, c.alive_held, ap count free);
    alive_counts = c.alive_counts;
    in_rounds = c.in_rounds;
    created = c.created;
    gathered = λ e. cc;
    cleared = λ e. cc;
  }
  Counts-MainMove g m g' m' (all_leave _ h) c = record {
    alive_held = c.alive_held;
    alive_counts = c.alive_counts;
    in_rounds = c.in_rounds;
    created = c.created;
    gathered = λ e. omega (arith, (sums-le n ts).0, c.alive_counts, h);
    cleared = λ e. cc;
  }
  Counts-MainMove g m g' m' (all_unlock _) c = record {
    alive_held = omega (arith, c.alive_held, count-le g.alive_mutex);
    alive_counts = c.alive_counts;
    in_rounds = c.in_rounds;
    created = c.created;
    gathered = c.gathered;
    cleared = λ e. cc;
  }
  Counts-MainMove g m g' m' (stop_lock _ free) c = record {
    alive_held = c.alive_held;
    alive_counts = c.alive_counts;
    in_rounds = c.in_rounds;
    created = c.created;
    gathered = c.gathered;
    cleared = λ e. cc;
  }
  Counts-MainMove g m g' m' (stop _) c = record {
    alive_held = c.alive_held;
    alive_counts = c.alive_counts;
    in_rounds = c.in_rounds;
    created = c.created;
    gathered = c.gathered;
    cleared = λ e. cc;
  }
  Counts-MainMove g m g' m' (stop_unlock _) c = record {
    alive_held = c.alive_held;
    alive_counts = c.alive_counts;
    in_rounds = c.in_rounds;
    created = c.created;
    gathered = c.gathered;
    cleared = λ e. cc;
  }
  Counts-MainMove g m g' m' (none_lock _ free) c = record {
    alive_held = omega (arith, c.alive_held, ap count free);
    alive_counts = c.alive_counts;
    in_rounds = c.in_rounds;
    created = c.created;
    gathered = c.gathered;
    cleared = λ e. cc;
  }
  Counts-MainMove g m g' m' (none_wait _ h) c = record {
    alive_held = omega (arith, c.alive_held, count-le g.alive_mutex);
    alive_counts = c.alive_counts;
    in_rounds = c.in_rounds;
    created = c.created;
    gathered = c.gathered;
    cleared = λ e. cc;
  }
  Counts-MainMove g m g' m' (none_wake _ free) c = record {
    alive_held = omega (arith, c.alive_held, ap count free);
    alive_counts = c.alive_counts;
    in_rounds = c.in_rounds;
    created = c.created;
    gathered = c.gathered;
    cleared = λ e. cc;
  }
  Counts-MainMove g m g' m' (none_leave _ h) c = record {
    alive_held = c.alive_held;
    alive_counts = c.alive_counts;
    in_rounds = c.in_rounds;
    created = c.created;
    gathered = c.gathered;
    cleared = λ e. omega (
      arith,
      h,
      (sums-le n ts).1,
      c.gathered refl,
      c.alive_counts,
      c.alive_held,
      count-le g.alive_mutex,
    );
  }
  Counts-MainMove g m g' m' (none_unlock _) c = record {
    alive_held = omega (arith, c.alive_held, count-le g.alive_mutex);
    alive_counts = c.alive_counts;
    in_rounds = c.in_rounds;
    created = c.created;
    gathered = c.gathered;
    cleared = λ e. c.cleared refl;
  }
