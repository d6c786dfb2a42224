-- ===== src/Threads/AtomicGcc.antt =====
-- examples/atomic-gcc.c: threads that count by __sync_fetch_and_add.
use clang_witness_inject.Prelude.{ℕ, ◌+◌, ◌%◌, ◌≡◌, refl, Bool, true, false, arith}
use clang_witness_inject.Threads.Pool.{Worker, System, Reach}
use clang_witness_inject.Threads.Pool.Tally.{Tally, sum, sum-zero, reach-Tallies}

-- `data`; it counts at most 127 threads, so the sum of two `int` does not overflow.
pub record Globals : Type 0 where
  pub value : ℕ

pub data Pc : Type 0 where
  adding finished : Pc

abbrev pub finished? : Pc → Bool
finished? finished = true
finished? adding = false

-- One atomic access.
pub data Move : Globals → Pc → Globals → Pc → Type 0 where
  fetch_and_add : (g : Globals) → Move g adding (record g { value = g.value + 1 }) finished

abbrev pub thread : Worker
thread = record {
  Shared = Globals;
  Local = Pc;
  prepare = λ i g. g;
  begin = λ i. adding;
  ended = finished?;
  Move = Move;
}

abbrev pub globals : Globals
globals = record { value = 0 }

-- `threads_total`, for a value of `rand`, which is not negative.
abbrev pub threads_total : ℕ → ℕ
threads_total random = random % 128

abbrev pub Runs : ℕ → System thread → Type 0
Runs random = Reach thread (threads_total random) globals

stops : (g : Globals) (l : Pc) (g' : Globals) (l' : Pc) → Move g l g' l' → finished? l ≡ false
stops g l g' l' (fetch_and_add _) = refl

-- 1 for a thread that has ended.
abbrev pub done : Pc → ℕ
done finished = 1
done adding = 0

balanced :
    (g : Globals) (l : Pc) (g' : Globals) (l' : Pc)
    → Move g l g' l'
    → g'.value + 0 + done l ≡ g.value + 0 + done l'
balanced g l g' l' (fetch_and_add _) = omega arith

abbrev count : Tally thread
count = record {
  value = λ g. g.value;
  up = done;
  down = λ l. 0;
  begins = λ i. (refl, refl);
  prepared = λ i g. refl;
  balanced = balanced;
}

-- In every reachable state `data` is the number of the threads that have ended: no addition is lost,
-- however the threads are interleaved.
pub atomic_counts :
    (random : ℕ) {s : System thread}
    → Runs random s
    → s.shared.value ≡ sum done (threads_total random) s.threads
atomic_counts random {s = s} r = omega (
  arith,
  reach-Tallies thread stops count (threads_total random) r,
  sum-zero (threads_total random) s.threads,
)
