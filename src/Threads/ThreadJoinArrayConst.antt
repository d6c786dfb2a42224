-- ===== src/Threads/ThreadJoinArrayConst.antt =====
-- examples/thread-join-array-const.c: four threads write one variable under a mutex.
use clang_witness_inject.Prelude.{ℕ, ◌≡◌, refl, Bool, true, false, some}
use clang_witness_inject.Threads.Pool.{Worker, System, Reach, returned, IsOver}
use clang_witness_inject.Threads.Pool.Joined.{returned-IsOver}
use clang_witness_inject.Threads.Pool.Exclusion.{Lock, Discipline, takes, gives, keeps, one_inside}

-- `data` and its mutex.
pub record Globals : Type 0 where
  pub value : ℕ
  pub mutex : Bool

-- Where `thread` stands: before each of its calls and its write.
pub data Pc : Type 0 where
  locking writing unlocking finished : Pc

abbrev pub finished? : Pc → Bool
finished? finished = true
finished? _ = false

pub data Move : Globals → Pc → Globals → Pc → Type 0 where
  lock : (g : Globals) → g.mutex ≡ false → Move g locking (record g { mutex = true }) writing
  write : (g : Globals) (random : ℕ) → Move g writing (record g { value = random }) unlocking
  unlock : (g : Globals) → Move g unlocking (record g { mutex = false }) finished

abbrev pub thread : Worker
thread = record {
  Shared = Globals;
  Local = Pc;
  prepare = λ i g. g;
  begin = λ i. locking;
  ended = finished?;
  Move = Move;
}

abbrev pub globals : Globals
globals = record { value = 0; mutex = false }

abbrev pub threads_total : ℕ
threads_total = 4

-- The states that a run reaches.
abbrev pub Runs : System thread → Type 0
Runs = Reach thread threads_total globals

abbrev inside : Pc → Bool
inside writing = true
inside unlocking = true
inside _ = false

obeys :
    (g : Globals) (l : Pc) (g' : Globals) (l' : Pc)
    → Unit {0}
    → Move g l g' l'
    → Discipline g.mutex g'.mutex (inside l) (inside l')
obeys g l g' l' fine (lock _ free) = rw free takes
obeys g l g' l' fine (write _ random) = keeps
obeys g l g' l' fine (unlock _) = gives

abbrev data_lock : Lock thread
data_lock = record {
  Fine = λ l. Unit;
  locked = λ g. g.mutex;
  inside = inside;
  prepared = λ i g. refl;
  begins_outside = λ i. refl;
  begins_fine = λ i. tt;
  stays_fine = λ g l g' l' p m. tt;
  obeys = obeys;
}

stops : (g : Globals) (l : Pc) (g' : Globals) (l' : Pc) → Move g l g' l' → finished? l ≡ false
stops g l g' l' (lock _ free) = refl
stops g l g' l' (write _ random) = refl
stops g l g' l' (unlock _) = refl

-- In no reachable state do two threads stand before the write of `data`, so it is not a race.
array_const_one_writer :
    {s : System thread}
    → Runs s
    → (i j : ℕ) → s.threads i ≡ some writing
    → s.threads j ≡ some writing
    → i ≡ j
array_const_one_writer r i j e f = one_inside thread data_lock threads_total r i j e f refl refl

-- When `main` returns, every thread that it started has run to its end.
array_const_all_finished :
    {s : System thread} → Runs s → s.main ≡ returned → (i : ℕ) → IsOver thread (s.threads i)
array_const_all_finished r e = returned-IsOver thread threads_total stops r e
