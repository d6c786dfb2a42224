-- ===== src/Threads/PerThreadIndexInc/Indices.antt =====
-- The indices that the threads of examples/per-thread-index-inc.c take.
use clang_witness_inject.Prelude.{ℕ, ◌+◌, ◌<◌, ◌≤◌, ◌≡◌, refl, Option, none, some, arith, ap}
use clang_witness_inject.Threads.Pool.{
  System, Step, create, create_fails, all_created, join, all_joined, work, Reach, start, later,
  update,
}
use clang_witness_inject.Threads.Pool.Exclusion.{one_inside}
use clang_witness_inject.Threads.Pool.Tally.{sum-zero, sum-le, reach-Tallies}
use clang_witness_inject.Threads.PerThreadIndexInc.{
  Globals, Pc, locking, reading, finished, incrementing, unlocking, writing, Move, lock, read,
  increment, unlock, write, thread, globals, threads_total, Runs, index_lock, stops, indices,
  counted,
}

-- The index that a thread has counted as its own and has not used yet.
abbrev owned : Option Pc → Option ℕ
owned (some (unlocking j)) = some j
owned (some (writing j)) = some j
owned _ = none

record Apart (next : ℕ) (ts : ℕ → Option Pc) : Type 0 where
  fresh : (a j : ℕ) → ts a ≡ some (incrementing j) → j ≡ next
  below : (a j : ℕ) → owned (ts a) ≡ some j → j < next
  distinct : (a b j : ℕ) → owned (ts a) ≡ some j → owned (ts b) ≡ some j → a ≡ b

module _ (ts : ℕ → Option Pc) (i : ℕ) where
  -- A thread that has no index is put in the place of another.
  Apart-plain :
      (next : ℕ) (l : Pc)
      → Apart next ts
      → owned (some l) ≡ none
      → ((j : ℕ) → l ≡ incrementing j → j ≡ next)
      → Apart next (update ts i (some l))
  Apart-plain next l x plain new = record {
    fresh = λ a j e. ground (arith, x.fresh a j, new j);
    below = λ a j e. ground (arith, x.below a j);
    distinct = λ a b j e f. ground (arith, x.distinct a b j);
  }

  Apart-increment :
      (next j : ℕ)
      → Apart next ts
      → ts i ≡ some (incrementing j)
      → ((a k : ℕ) → ts a ≡ some (incrementing k) → a ≡ i)
      → Apart (next + 1) (update ts i (some (unlocking j)))
  Apart-increment next j x e alone = record {
    fresh = λ a k q. ground (arith, alone a k);
    below = λ a k q. ground (arith, x.below a k, x.fresh i j);
    distinct = λ a b k q r. ground (arith, x.distinct a b k, x.below a k, x.below b k, x.fresh i j);
  }

  Apart-unlock :
      (next j : ℕ)
      → Apart next ts
      → ts i ≡ some (unlocking j)
      → Apart next (update ts i (some (writing j)))
  Apart-unlock next j x e = record {
    fresh = λ a k q. ground (arith, x.fresh a k);
    below = λ a k q. ground (arith, x.below a k, x.below i j);
    distinct = λ a b k q r. ground (arith, x.distinct a b k, x.distinct i b k, x.distinct a i k);
  }

  -- A move of thread `i`.
  Apart-Move :
      (g : Globals) (l : Pc) (g' : Globals) (l' : Pc)
      → Move g l g' l'
      → Apart g.next_j ts
      → ts i ≡ some l
      → ((a k j : ℕ) → ts a ≡ some (incrementing k) → ts i ≡ some (incrementing j) → a ≡ i)
      → Apart g'.next_j (update ts i (some l'))
  Apart-Move g l g' l' (lock _ free) x e alone = Apart-plain g.next_j reading x refl (λ j q. cc)
  Apart-Move g l g' l' (read _) x e alone =
      Apart-plain g.next_j (incrementing g.next_j) x refl (λ j q. ground (arith, q))
  Apart-Move g l g' l' (increment _ j) x e alone =
      Apart-increment g.next_j j x e (λ a k q. alone a k j q e)
  Apart-Move g l g' l' (unlock _ j) x e alone = Apart-unlock g.next_j j x e
  Apart-Move g l g' l' (write _ j random) x e alone =
      Apart-plain g.next_j finished x refl (λ k q. cc)

step-Apart :
    {n : ℕ} {g : Globals} {s t : System thread}
    → Reach thread n g s
    → Step thread n s t
    → Apart s.shared.next_j s.threads
    → Apart t.shared.next_j t.threads
step-Apart {s = s} r (create i e h) x =
    Apart-plain s.threads i s.shared.next_j locking x refl (λ j q. cc)
step-Apart r (create_fails i e h) x = x
step-Apart r (all_created i e h) x = x
step-Apart r (join i e h o) x = x
step-Apart r (all_joined i e h) x = x
step-Apart {n} {s = s} r (work i {l} {l'} {g'} e m) x =
    Apart-Move s.threads i s.shared l g' l' m x e
      (λ a k j q p. one_inside thread index_lock n r a i q p refl refl)

reach-Apart :
    {n : ℕ} {datas : ℕ → ℕ} {s : System thread}
    → Reach thread n (globals datas) s
    → Apart s.shared.next_j s.threads
reach-Apart start = record { fresh = λ a j e. cc; below = λ a j e. cc; distinct = λ a b j e f. cc }
reach-Apart (later r st) = step-Apart r st (reach-Apart r)

-- In no reachable state do two threads stand before a write of one cell, so the writes are no race.
pub index_inc_own_cell :
    (random : ℕ) {datas : ℕ → ℕ} {s : System thread} {j : ℕ}
    → Runs random datas s
    → (a b : ℕ) → s.threads a ≡ some (writing j)
    → s.threads b ≡ some (writing j)
    → a ≡ b
index_inc_own_cell random {j = j} r a b e f =
    (reach-Apart r).distinct a b j (ap owned e) (ap owned f)

counted-le : (l : Pc) → counted l ≤ 1
counted-le locking = omega arith
counted-le _ = omega arith

-- The cell that a thread is about to write lies in the array of `threads_total` cells.
index_inc_bound :
    (random : ℕ) {datas : ℕ → ℕ} {s : System thread} {j : ℕ}
    → Runs random datas s
    → (a : ℕ) → s.threads a ≡ some (writing j)
    → j < threads_total random
index_inc_bound random {s = s} {j = j} r a e =
    let n = threads_total random in
    omega (
      arith,
      (reach-Apart r).below a j (ap owned e),
      reach-Tallies thread stops indices n r,
      sum-zero n s.threads,
      sum-le counted counted-le n s.threads,
    )
