-- ===== src/Threads/ThreadJoinCounterInner.antt =====
-- examples/thread-join-counter-inner.c: each thread counts itself on and off; `main` waits until all
-- are counted on, tells them to stop, and waits until all are counted off.
pub mod Counts
pub mod MainMoves
pub mod Moves
pub mod Stopped
use clang_witness_inject.Prelude.{
  ℕ, suc, ◌+◌, ◌-◌, ◌%◌, ◌<◌, ◌≤◌, ◌≡◌, ◌≢◌, Bool, true, false, Option, none, some,
}
use clang_witness_inject.Threads.Pool.{update}

-- `threads_alive`, which never gets below 0 nor above 127, `keep_alive`, `data`, and their mutexes.
pub record Globals : Type 0 where
  pub alive : ℕ
  pub alive_mutex : Bool
  pub keep_alive : Bool
  pub keep_mutex : Bool
  pub value : ℕ
  pub data_mutex : Bool

-- Where `thread` stands. A signal has no effect of its own: a wait may end without one.
pub data Pc : Type 0 where
  on_locking incrementing on_unlocking keep_locking testing keep_unlocking : Pc
  data_locking writing data_unlocking last_unlocking off_locking decrementing off_unlocking
        finished :
      Pc

pub data Move : Globals → Pc → Globals → Pc → Type 0 where
  on_lock :
      (g : Globals)
      → g.alive_mutex ≡ false
      → Move g on_locking (record g { alive_mutex = true }) incrementing
  increment : (g : Globals) → Move g incrementing (record g { alive = g.alive + 1 }) on_unlocking
  on_unlock : (g : Globals) → Move g on_unlocking (record g { alive_mutex = false }) keep_locking
  keep_lock :
      (g : Globals)
      → g.keep_mutex ≡ false
      → Move g keep_locking (record g { keep_mutex = true }) testing
  again : (g : Globals) → g.keep_alive ≡ true → Move g testing g keep_unlocking
  leave : (g : Globals) → g.keep_alive ≡ false → Move g testing g last_unlocking
  keep_unlock : (g : Globals) → Move g keep_unlocking (record g { keep_mutex = false }) data_locking
  data_lock :
      (g : Globals)
      → g.data_mutex ≡ false
      → Move g data_locking (record g { data_mutex = true }) writing
  write : (g : Globals) (random : ℕ) → Move g writing (record g { value = random }) data_unlocking
  data_unlock : (g : Globals) → Move g data_unlocking (record g { data_mutex = false }) keep_locking
  last_unlock : (g : Globals) → Move g last_unlocking (record g { keep_mutex = false }) off_locking
  off_lock :
      (g : Globals)
      → g.alive_mutex ≡ false
      → Move g off_locking (record g { alive_mutex = true }) decrementing
  decrement : (g : Globals) → Move g decrementing (record g { alive = g.alive - 1 }) off_unlocking
  off_unlock : (g : Globals) → Move g off_unlocking (record g { alive_mutex = false }) finished

-- Where `main` stands: in a round of its first loop; in the loop that waits until all threads are
-- counted on; where it tells them to stop; in the loop that waits until all are counted off.
pub data MainPc : Type 0 where
  creating : ℕ → MainPc
  all_locking all_testing all_sleeping all_unlocking : MainPc
  stop_locking stopping stop_unlocking : MainPc
  none_locking none_testing none_sleeping none_unlocking returned : MainPc

pub record System : Type 0 where
  pub shared : Globals
  pub main : MainPc
  pub threads : ℕ → Option Pc

-- What `main` does but for the creation of threads. `n` is `threads_total`.
pub data MainMove (n : ℕ) : Globals → MainPc → Globals → MainPc → Type 0 where
  all_created : (g : Globals) (i : ℕ) → n ≤ i → MainMove n g (creating i) g all_locking
  all_lock :
      (g : Globals)
      → g.alive_mutex ≡ false
      → MainMove n g all_locking (record g { alive_mutex = true }) all_testing
  all_wait :
      (g : Globals)
      → g.alive ≢ n
      → MainMove n g all_testing (record g { alive_mutex = false }) all_sleeping
  all_wake :
      (g : Globals)
      → g.alive_mutex ≡ false
      → MainMove n g all_sleeping (record g { alive_mutex = true }) all_testing
  all_leave : (g : Globals) → g.alive ≡ n → MainMove n g all_testing g all_unlocking
  all_unlock :
      (g : Globals) → MainMove n g all_unlocking (record g { alive_mutex = false }) stop_locking
  stop_lock :
      (g : Globals)
      → g.keep_mutex ≡ false
      → MainMove n g stop_locking (record g { keep_mutex = true }) stopping
  stop : (g : Globals) → MainMove n g stopping (record g { keep_alive = false }) stop_unlocking
  stop_unlock :
      (g : Globals) → MainMove n g stop_unlocking (record g { keep_mutex = false }) none_locking
  none_lock :
      (g : Globals)
      → g.alive_mutex ≡ false
      → MainMove n g none_locking (record g { alive_mutex = true }) none_testing
  none_wait :
      (g : Globals)
      → g.alive ≢ 0
      → MainMove n g none_testing (record g { alive_mutex = false }) none_sleeping
  none_wake :
      (g : Globals)
      → g.alive_mutex ≡ false
      → MainMove n g none_sleeping (record g { alive_mutex = true }) none_testing
  none_leave : (g : Globals) → g.alive ≡ 0 → MainMove n g none_testing g none_unlocking
  none_unlock :
      (g : Globals) → MainMove n g none_unlocking (record g { alive_mutex = false }) returned

-- A step of `main` or of a thread. pthread_create may fail.
pub data Step (n : ℕ) (s : System) : System → Type 0 where
  create :
      (i : ℕ)
      → s.main ≡ creating i
      → i < n
      → Step n s
          (record s { main = creating (suc i); threads = update s.threads i (some on_locking) })
  create_fails :
      (i : ℕ) → s.main ≡ creating i → i < n → Step n s (record s { main = creating (suc i) })
  go :
      {p p' : MainPc} {g' : Globals}
      → s.main ≡ p
      → MainMove n s.shared p g' p'
      → Step n s (record s { shared = g'; main = p' })
  work :
      (i : ℕ) {l l' : Pc} {g' : Globals}
      → s.threads i ≡ some l
      → Move s.shared l g' l'
      → Step n s (record s { shared = g'; threads = update s.threads i (some l') })

abbrev pub init : System
init = record {
  shared = record {
    alive = 0;
    alive_mutex = false;
    keep_alive = true;
    keep_mutex = false;
    value = 0;
    data_mutex = false;
  };
  main = creating 0;
  threads = λ i. none;
}

-- `threads_total`, for a value of `rand`, which is not negative.
abbrev pub threads_total : ℕ → ℕ
threads_total random = random % 128

-- The states that a run with this value of `rand` reaches.
pub data Reach (random : ℕ) : System → Type 0 where
  start : Reach random init
  later : {s t : System} → Reach random s → Step (threads_total random) s t → Reach random t
