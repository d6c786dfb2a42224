-- ===== src/Threads/ThreadJoinCounterOuter/Moves.antt =====
-- The counts of examples/thread-join-counter-outer.c when a thread moves.
use clang_witness_inject.Prelude.{
  ℕ, ◌+◌, ◌<◌, ◌≤◌, ◌≡◌, refl, Option, some, ◌==◌, arith, ap, Bool-cases, inl, inr,
}
use clang_witness_inject.Threads.Pool.{update}
use clang_witness_inject.Threads.Pool.Tally.{sum, weight, sum-update, weight-le-sum}
use clang_witness_inject.Threads.ThreadJoinCounterOuter.{
  Globals, Pc, Move, data_lock, write, data_unlock, alive_lock, decrement, alive_unlock, MainPc,
}
use clang_witness_inject.Threads.ThreadJoinCounterOuter.Counts.{
  count, count-le, in_data, in_alive, pending, unfinished, Counts,
}

module _ (n : ℕ) (ts : ℕ → Option Pc) where
  -- The equations of a move of a thread.
  record Balanced (g : Globals) (l : Pc) (g' : Globals) (l' : Pc) : Type 0 where
    alive_moves : count g'.alive_mutex + in_alive l ≡ count g.alive_mutex + in_alive l'
    data_moves : count g'.data_mutex + in_data l ≡ count g.data_mutex + in_data l'
    counter_moves : pending l ≤ g.alive → g.alive + pending l' ≤ g'.alive + pending l
    unfinished_moves : unfinished l ≡ 1

  Move-Balanced :
      (g : Globals) (l : Pc) (g' : Globals) (l' : Pc)
      → Move g l g' l'
      → in_alive l ≤ count g.alive_mutex
      → in_data l ≤ count g.data_mutex
      → Balanced g l g' l'
  Move-Balanced g l g' l' (data_lock _ free) h k = record {
    alive_moves = refl;
    data_moves = omega (arith, ap count free);
    counter_moves = λ p. omega arith;
    unfinished_moves = refl;
  }
  Move-Balanced g l g' l' (write _ random) h k = record {
    alive_moves = refl;
    data_moves = refl;
    counter_moves = λ p. omega arith;
    unfinished_moves = refl;
  }
  Move-Balanced g l g' l' (data_unlock _) h k = record {
    alive_moves = refl;
    data_moves = omega (arith, count-le g.data_mutex);
    counter_moves = λ p. omega arith;
    unfinished_moves = refl;
  }
  Move-Balanced g l g' l' (alive_lock _ free) h k = record {
    alive_moves = omega (arith, ap count free);
    data_moves = refl;
    counter_moves = λ p. omega arith;
    unfinished_moves = refl;
  }
  Move-Balanced g l g' l' (decrement _) h k = record {
    alive_moves = refl;
    data_moves = refl;
    counter_moves = λ p. omega arith;
    unfinished_moves = refl;
  }
  Move-Balanced g l g' l' (alive_unlock _) h k = record {
    alive_moves = omega (arith, count-le g.alive_mutex);
    data_moves = refl;
    counter_moves = λ p. omega arith;
    unfinished_moves = refl;
  }

  -- What a sum becomes when a thread of weight `f l` gets to weight `f l'`.
  sum-moved :
      (f : Pc → ℕ) (i : ℕ) (l l' : Pc)
      → i < n
      → ts i ≡ some l
      → sum f n (update ts i (some l')) + f l ≡ sum f n ts + f l'
  sum-moved f i l l' h e = omega (arith, sum-update f n i ts (some l') h, ap (weight f) e)

  pub le-sum : (f : Pc → ℕ) (i : ℕ) (l : Pc) → i < n → ts i ≡ some l → f l ≤ sum f n ts
  le-sum f i l h e = omega (arith, weight-le-sum f n i ts h, ap (weight f) e)

  pub Counts-Move :
      (g : Globals) (m : MainPc) (l : Pc) (g' : Globals) (l' : Pc) (i : ℕ)
      → Move g l g' l'
      → ts i ≡ some l
      → Counts n g m ts
      → Counts n g' m (update ts i (some l'))
  Counts-Move g m l g' l' i move e c =
      let h : i < n = omega (arith, c.created i l e, c.in_rounds) in
      let b =
        Move-Balanced g l g' l' move (omega (arith, c.alive_held, le-sum in_alive i l h e))
          (omega (arith, c.data_held, le-sum in_data i l h e)) in
      record {
        alive_held = omega (arith, b.alive_moves, c.alive_held, sum-moved in_alive i l l' h e);
        data_held = omega (arith, b.data_moves, c.data_held, sum-moved in_data i l l' h e);
        alive_counts = omega (
          arith,
          b.counter_moves (omega (arith, c.alive_counts, le-sum pending i l h e)),
          c.alive_counts,
          sum-moved pending i l l' h e,
        );
        in_rounds = c.in_rounds;
        created = λ j k q. elim (Bool-cases (i == j)) [
          | inl here ↦ ground (arith, c.created i l e)
          | inr other ↦ c.created j k (ground arith)
        ];
        cleared =
            λ q. absurd (omega (arith, c.cleared q, le-sum unfinished i l h e, b.unfinished_moves));
      }
