-- ===== src/Threads/ThreadJoinCounterInner/Moves.antt =====
-- The counts of examples/thread-join-counter-inner.c when a thread moves.
use clang_witness_inject.Prelude.{
  ℕ, ◌+◌, ◌<◌, ◌≤◌, ◌≡◌, refl, Option, some, ◌==◌, arith, ap, Bool-cases, inl, inr,
}
use clang_witness_inject.Threads.Pool.{update}
use clang_witness_inject.Threads.Pool.Tally.{sum, weight, sum-update, weight-le-sum}
use clang_witness_inject.Threads.ThreadJoinCounterInner.{
  Globals, Pc, Move, on_lock, increment, on_unlock, keep_lock, again, leave, keep_unlock, data_lock,
  write, data_unlock, last_unlock, off_lock, decrement, off_unlock, MainPc,
}
use clang_witness_inject.Threads.ThreadJoinCounterInner.Counts.{
  count, count-le, in_alive, early, counted, unfinished, Counts,
}

-- The equations of a move of a thread.
record Balanced (g : Globals) (l : Pc) (g' : Globals) (l' : Pc) : Type 0 where
  alive_moves : count g'.alive_mutex + in_alive l ≡ count g.alive_mutex + in_alive l'
  counter_moves : counted l ≤ g.alive → g'.alive + counted l ≡ g.alive + counted l'
  early_moves : early l' ≤ early l
  unfinished_moves : unfinished l ≡ 1

Move-Balanced :
    (g : Globals) (l : Pc) (g' : Globals) (l' : Pc)
    → Move g l g' l'
    → in_alive l ≤ count g.alive_mutex
    → Balanced g l g' l'
Move-Balanced g l g' l' (on_lock _ free) h = record {
  alive_moves = omega (arith, ap count free);
  counter_moves = λ p. refl;
  early_moves = omega arith;
  unfinished_moves = refl;
}
Move-Balanced g l g' l' (increment _) h = record {
  alive_moves = refl;
  counter_moves = λ p. omega arith;
  early_moves = omega arith;
  unfinished_moves = refl;
}
Move-Balanced g l g' l' (on_unlock _) h = record {
  alive_moves = omega (arith, count-le g.alive_mutex);
  counter_moves = λ p. refl;
  early_moves = omega arith;
  unfinished_moves = refl;
}
Move-Balanced g l g' l' (keep_lock _ free) h = record {
  alive_moves = refl;
  counter_moves = λ p. refl;
  early_moves = omega arith;
  unfinished_moves = refl;
}
Move-Balanced g l g' l' (again _ e) h = record {
  alive_moves = refl;
  counter_moves = λ p. refl;
  early_moves = omega arith;
  unfinished_moves = refl;
}
Move-Balanced g l g' l' (leave _ e) h = record {
  alive_moves = refl;
  counter_moves = λ p. refl;
  early_moves = omega arith;
  unfinished_moves = refl;
}
Move-Balanced g l g' l' (keep_unlock _) h = record {
  alive_moves = refl;
  counter_moves = λ p. refl;
  early_moves = omega arith;
  unfinished_moves = refl;
}
Move-Balanced g l g' l' (data_lock _ free) h = record {
  alive_moves = refl;
  counter_moves = λ p. refl;
  early_moves = omega arith;
  unfinished_moves = refl;
}
Move-Balanced g l g' l' (write _ random) h = record {
  alive_moves = refl;
  counter_moves = λ p. refl;
  early_moves = omega arith;
  unfinished_moves = refl;
}
Move-Balanced g l g' l' (data_unlock _) h = record {
  alive_moves = refl;
  counter_moves = λ p. refl;
  early_moves = omega arith;
  unfinished_moves = refl;
}
Move-Balanced g l g' l' (last_unlock _) h = record {
  alive_moves = refl;
  counter_moves = λ p. refl;
  early_moves = omega arith;
  unfinished_moves = refl;
}
Move-Balanced g l g' l' (off_lock _ free) h = record {
  alive_moves = omega (arith, ap count free);
  counter_moves = λ p. refl;
  early_moves = omega arith;
  unfinished_moves = refl;
}
Move-Balanced g l g' l' (decrement _) h = record {
  alive_moves = refl;
  counter_moves = λ p. omega arith;
  early_moves = omega arith;
  unfinished_moves = refl;
}
Move-Balanced g l g' l' (off_unlock _) h = record {
  alive_moves = omega (arith, count-le g.alive_mutex);
  counter_moves = λ p. refl;
  early_moves = omega arith;
  unfinished_moves = refl;
}

module _ (n : ℕ) (ts : ℕ → Option Pc) where
  -- What a sum becomes when a thread of weight `f l` gets to weight `f l'`.
  sum-moved :
      (f : Pc → ℕ) (i : ℕ) (l l' : Pc)
      → i < n
      → ts i ≡ some l
      → sum f n (update ts i (some l')) + f l ≡ sum f n ts + f l'
  sum-moved f i l l' h e = omega (arith, sum-update f n i ts (some l') h, ap (weight f) e)

  pub le-sum : (f : Pc → ℕ) (i : ℕ) (l : Pc) → i < n → ts i ≡ some l → f l ≤ sum f n ts
  le-sum f i l h e = omega (arith, weight-le-sum f n i ts h, ap (weight f) e)

  pub Counts-Move :
      (g : Globals) (m : MainPc) (l : Pc) (g' : Globals) (l' : Pc) (i : ℕ)
      → Move g l g' l'
      → ts i ≡ some l
      → Counts n g m ts
      → Counts n g' m (update ts i (some l'))
  Counts-Move g m l g' l' i move e c =
      let h : i < n = omega (arith, c.created i l e, c.in_rounds) in
      let b = Move-Balanced g l g' l' move (omega (arith, c.alive_held, le-sum in_alive i l h e)) in
      record {
        alive_held = omega (arith, b.alive_moves, c.alive_held, sum-moved in_alive i l l' h e);
        alive_counts = omega (
          arith,
          b.counter_moves (omega (arith, c.alive_counts, le-sum counted i l h e)),
          c.alive_counts,
          sum-moved counted i l l' h e,
        );
        in_rounds = c.in_rounds;
        created = λ j k q. elim (Bool-cases (i == j)) [
          | inl here ↦ ground (arith, c.created i l e)
          | inr other ↦ c.created j k (ground arith)
        ];
        gathered = λ q. omega (arith, c.gathered q, sum-moved early i l l' h e, b.early_moves);
        cleared =
            λ q. absurd (omega (arith, c.cleared q, le-sum unfinished i l h e, b.unfinished_moves));
      }
