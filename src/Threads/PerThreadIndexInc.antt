-- ===== src/Threads/PerThreadIndexInc.antt =====
-- examples/per-thread-index-inc.c: each thread takes the next index under a mutex and writes the cell
-- of that index behind it.
pub mod Indices
use clang_witness_inject.Prelude.{
  ℕ, ◌+◌, ◌%◌, ◌≡◌, refl, Bool, true, false, Option, none, some, arith,
}
use clang_witness_inject.Threads.Pool.{Worker, System, Reach, update}
use clang_witness_inject.Threads.Pool.Exclusion.{Lock, Discipline, takes, gives, keeps}
use clang_witness_inject.Threads.Pool.Tally.{Tally}

pub record Globals : Type 0 where
  pub datas : ℕ → ℕ  -- an array of `threads_total` cells
  pub next_j : ℕ
  pub mutex : Bool

-- Where `thread` stands, with its `j` once it has one.
pub data Pc : Type 0 where
  locking reading finished : Pc
  incrementing unlocking writing : (j : ℕ) → Pc

abbrev pub finished? : Pc → Bool
finished? finished = true
finished? _ = false

pub data Move : Globals → Pc → Globals → Pc → Type 0 where
  lock : (g : Globals) → g.mutex ≡ false → Move g locking (record g { mutex = true }) reading
  read : (g : Globals) → Move g reading g (incrementing g.next_j)
  increment :
      (g : Globals) (j : ℕ)
      → Move g (incrementing j) (record g { next_j = g.next_j + 1 }) (unlocking j)
  unlock : (g : Globals) (j : ℕ) → Move g (unlocking j) (record g { mutex = false }) (writing j)
  write :
      (g : Globals) (j random : ℕ)
      → Move g (writing j) (record g { datas = update g.datas j random }) finished

abbrev pub thread : Worker
thread = record {
  Shared = Globals;
  Local = Pc;
  prepare = λ i g. g;
  begin = λ i. locking;
  ended = finished?;
  Move = Move;
}

-- With any contents of the array.
abbrev pub globals : (ℕ → ℕ) → Globals
globals datas = record { datas = datas; next_j = 0; mutex = false }

-- `threads_total`, for a value of `rand`, which is not negative.
abbrev pub threads_total : ℕ → ℕ
threads_total random = random % 128

abbrev pub Runs : ℕ → (ℕ → ℕ) → System thread → Type 0
Runs random datas = Reach thread (threads_total random) (globals datas)

abbrev pub inside : Pc → Bool
inside reading = true
inside (incrementing j) = true
inside (unlocking j) = true
inside _ = false

pub obeys :
    (g : Globals) (l : Pc) (g' : Globals) (l' : Pc)
    → Unit {0}
    → Move g l g' l'
    → Discipline g.mutex g'.mutex (inside l) (inside l')
obeys g l g' l' fine (lock _ free) = rw free takes
obeys g l g' l' fine (read _) = keeps
obeys g l g' l' fine (increment _ j) = keeps
obeys g l g' l' fine (unlock _ j) = gives
obeys g l g' l' fine (write _ j random) = keeps

abbrev pub index_lock : Lock thread
index_lock = record {
  Fine = λ l. Unit;
  locked = λ g. g.mutex;
  inside = inside;
  prepared = λ i g. refl;
  begins_outside = λ i. refl;
  begins_fine = λ i. tt;
  stays_fine = λ g l g' l' p m. tt;
  obeys = obeys;
}

pub stops : (g : Globals) (l : Pc) (g' : Globals) (l' : Pc) → Move g l g' l' → finished? l ≡ false
stops g l g' l' (lock _ free) = refl
stops g l g' l' (read _) = refl
stops g l g' l' (increment _ j) = refl
stops g l g' l' (unlock _ j) = refl
stops g l g' l' (write _ j random) = refl

-- 1 for a thread that has counted itself.
abbrev pub counted : Pc → ℕ
counted locking = 0
counted reading = 0
counted (incrementing j) = 0
counted _ = 1

pub balanced :
    (g : Globals) (l : Pc) (g' : Globals) (l' : Pc)
    → Move g l g' l'
    → g'.next_j + 0 + counted l ≡ g.next_j + 0 + counted l'
balanced g l g' l' (lock _ free) = refl
balanced g l g' l' (read _) = refl
balanced g l g' l' (increment _ j) = omega arith
balanced g l g' l' (unlock _ j) = refl
balanced g l g' l' (write _ j random) = refl

abbrev pub indices : Tally thread
indices = record {
  value = λ g. g.next_j;
  up = counted;
  down = λ l. 0;
  begins = λ i. (refl, refl);
  prepared = λ i g. refl;
  balanced = balanced;
}
