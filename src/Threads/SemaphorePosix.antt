-- ===== src/Threads/SemaphorePosix.antt =====
-- examples/semaphore-posix.c: threads write one variable under a semaphore that starts at 1.
use clang_witness_inject.Prelude.{
  ℕ, ◌+◌, ◌-◌, ◌%◌, ◌<◌, ◌≡◌, refl, ap, Bool, true, false, some, arith,
}
use native.Mathlib.Decide.{ℕ_discrete}
use clang_witness_inject.Threads.Pool.{Worker, System, Reach}
use clang_witness_inject.Threads.Pool.Tally.{
  Tally, sum-zero, weight, pair-le-sum, thread-lt, reach-Tallies,
}

-- `data` and the value of `data_sem`.
pub record Globals : Type 0 where
  pub value : ℕ
  sem : ℕ

pub data Pc : Type 0 where
  waiting writing posting finished : Pc

abbrev pub finished? : Pc → Bool
finished? finished = true
finished? _ = false

-- `sem_wait` goes on when the value is above 0, and takes 1 from it.
pub data Move : Globals → Pc → Globals → Pc → Type 0 where
  wait : (g : Globals) → 0 < g.sem → Move g waiting (record g { sem = g.sem - 1 }) writing
  write : (g : Globals) (random : ℕ) → Move g writing (record g { value = random }) posting
  post : (g : Globals) → Move g posting (record g { sem = g.sem + 1 }) finished

abbrev pub thread : Worker
thread = record {
  Shared = Globals;
  Local = Pc;
  prepare = λ i g. g;
  begin = λ i. waiting;
  ended = finished?;
  Move = Move;
}

-- Behind `sem_init(&data_sem, 0, 1)`.
abbrev pub globals : Globals
globals = record { value = 0; sem = 1 }

-- `threads_total`, for a value of `rand`, which is not negative.
abbrev pub threads_total : ℕ → ℕ
threads_total random = random % 128

abbrev pub Runs : ℕ → System thread → Type 0
Runs random = Reach thread (threads_total random) globals

stops : (g : Globals) (l : Pc) (g' : Globals) (l' : Pc) → Move g l g' l' → finished? l ≡ false
stops g l g' l' (wait _ h) = refl
stops g l g' l' (write _ random) = refl
stops g l g' l' (post _) = refl

-- 1 for a thread between `sem_wait` and `sem_post`.
abbrev holds : Pc → ℕ
holds writing = 1
holds posting = 1
holds _ = 0

balanced :
    (g : Globals) (l : Pc) (g' : Globals) (l' : Pc)
    → Move g l g' l'
    → g'.sem + holds l' + 0 ≡ g.sem + holds l + 0
balanced g l g' l' (wait _ h) = omega arith
balanced g l g' l' (write _ random) = omega arith
balanced g l g' l' (post _) = omega arith

abbrev permits : Tally thread
permits = record {
  value = λ g. g.sem;
  up = λ l. 0;
  down = holds;
  begins = λ i. (refl, refl);
  prepared = λ i g. refl;
  balanced = balanced;
}

-- In no reachable state do two threads stand before the write of `data`, so it is not a race.
semaphore_one_writer :
    (random : ℕ) {s : System thread}
    → Runs random s
    → (i j : ℕ) → s.threads i ≡ some writing
    → s.threads j ≡ some writing
    → i ≡ j
semaphore_one_writer random {s = s} r i j e f = elim (ℕ_discrete i j) [
  | yes same ↦ same
  | no other ↦
      let n = threads_total random in
      absurd (
        omega (
          arith,
          reach-Tallies thread stops permits n r,
          sum-zero n s.threads,
          pair-le-sum holds n i j s.threads (thread-lt thread stops permits n r i writing e)
              (thread-lt thread stops permits n r j writing f) other,
          ap (weight holds) e,
          ap (weight holds) f,
        ))
]
