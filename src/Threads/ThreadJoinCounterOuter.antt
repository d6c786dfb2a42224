-- ===== src/Threads/ThreadJoinCounterOuter.antt =====
-- examples/thread-join-counter-outer.c: `main` counts the threads that it creates, each thread counts
-- itself off, and `main` waits until the counter is 0.
pub mod Counts
pub mod Moves
pub mod Stopped
use clang_witness_inject.Prelude.{
  ℕ, suc, ◌+◌, ◌-◌, ◌%◌, ◌<◌, ◌≤◌, ◌≡◌, ◌≢◌, Bool, true, false, Option, none, some,
}
use clang_witness_inject.Threads.Pool.{update}

-- `threads_alive`, which never gets below 0 nor above 127, `data`, and their mutexes.
pub record Globals : Type 0 where
  pub alive : ℕ
  pub alive_mutex : Bool
  pub value : ℕ
  pub data_mutex : Bool

-- Where `thread` stands. The signal has no effect of its own: a wait may end without one.
pub data Pc : Type 0 where
  data_locking writing data_unlocking alive_locking decrementing alive_unlocking finished : Pc

pub data Move : Globals → Pc → Globals → Pc → Type 0 where
  data_lock :
      (g : Globals)
      → g.data_mutex ≡ false
      → Move g data_locking (record g { data_mutex = true }) writing
  write : (g : Globals) (random : ℕ) → Move g writing (record g { value = random }) data_unlocking
  data_unlock :
      (g : Globals) → Move g data_unlocking (record g { data_mutex = false }) alive_locking
  alive_lock :
      (g : Globals)
      → g.alive_mutex ≡ false
      → Move g alive_locking (record g { alive_mutex = true }) decrementing
  decrement : (g : Globals) → Move g decrementing (record g { alive = g.alive - 1 }) alive_unlocking
  alive_unlock : (g : Globals) → Move g alive_unlocking (record g { alive_mutex = false }) finished

-- Where `main` stands: in a round of its loop, in the loop that waits, or behind it.
pub data MainPc : Type 0 where
  locking incrementing unlocking creating : ℕ → MainPc
  wait_locking testing sleeping wait_unlocking returned : MainPc

pub record System : Type 0 where
  pub shared : Globals
  pub main : MainPc
  pub threads : ℕ → Option Pc

-- What `main` does but for the creation of threads. `n` is `threads_total`.
pub data MainMove (n : ℕ) : Globals → MainPc → Globals → MainPc → Type 0 where
  lock :
      (g : Globals) (i : ℕ)
      → i < n
      → g.alive_mutex ≡ false
      → MainMove n g (locking i) (record g { alive_mutex = true }) (incrementing i)
  increment :
      (g : Globals) (i : ℕ)
      → MainMove n g (incrementing i) (record g { alive = g.alive + 1 }) (unlocking i)
  unlock :
      (g : Globals) (i : ℕ)
      → MainMove n g (unlocking i) (record g { alive_mutex = false }) (creating i)
  all_created : (g : Globals) (i : ℕ) → n ≤ i → MainMove n g (locking i) g wait_locking
  wait_lock :
      (g : Globals)
      → g.alive_mutex ≡ false
      → MainMove n g wait_locking (record g { alive_mutex = true }) testing
  wait :
      (g : Globals) → g.alive ≢ 0 → MainMove n g testing (record g { alive_mutex = false }) sleeping
  wake :
      (g : Globals)
      → g.alive_mutex ≡ false
      → MainMove n g sleeping (record g { alive_mutex = true }) testing
  leave : (g : Globals) → g.alive ≡ 0 → MainMove n g testing g wait_unlocking
  wait_unlock :
      (g : Globals) → MainMove n g wait_unlocking (record g { alive_mutex = false }) returned

-- A step of `main` or of a thread. pthread_create may fail; the counter keeps its increment.
pub data Step (n : ℕ) (s : System) : System → Type 0 where
  create :
      (i : ℕ)
      → s.main ≡ creating i
      → Step n s
          (record s { main = locking (suc i); threads = update s.threads i (some data_locking) })
  create_fails : (i : ℕ) → s.main ≡ creating i → Step n s (record s { main = locking (suc i) })
  go :
      {p p' : MainPc} {g' : Globals}
      → s.main ≡ p
      → MainMove n s.shared p g' p'
      → Step n s (record s { shared = g'; main = p' })
  work :
      (i : ℕ) {l l' : Pc} {g' : Globals}
      → s.threads i ≡ some l
      → Move s.shared l g' l'
      → Step n s (record s { shared = g'; threads = update s.threads i (some l') })

abbrev pub init : System
init = record {
  shared = record { alive = 0; alive_mutex = false; value = 0; data_mutex = false };
  main = locking 0;
  threads = λ i. none;
}

-- `threads_total`, for a value of `rand`, which is not negative.
abbrev pub threads_total : ℕ → ℕ
threads_total random = random % 128

-- The states that a run with this value of `rand` reaches.
pub data Reach (random : ℕ) : System → Type 0 where
  start : Reach random init
  later : {s t : System} → Reach random s → Step (threads_total random) s t → Reach random t
