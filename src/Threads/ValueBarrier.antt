-- ===== src/Threads/ValueBarrier.antt =====
-- examples/value-barrier.c: threads that wait until `main` has written a variable and is ready.
pub mod Order
use clang_witness_inject.Prelude.{ℕ, suc, ◌%◌, ◌<◌, ◌≤◌, ◌≡◌, Bool, true, false, Option, none, some}
use clang_witness_inject.Threads.Pool.{update}

-- `data`, `ready` and `ready_mutex`.
pub record Globals : Type 0 where
  pub value : ℕ
  pub ready : Bool
  pub mutex : Bool

-- Where `thread` stands: before the lock, before the test of the loop, in pthread_cond_wait, before
-- the unlock, before the read of `data`, and at its end with its `x`.
pub data Pc : Type 0 where
  locking testing sleeping unlocking reading : Pc
  finished : (x : ℕ) → Pc

-- pthread_cond_wait gives the mutex back, and takes it again when it ends. It may end without a
-- broadcast, so a broadcast allows nothing more.
pub data Move : Globals → Pc → Globals → Pc → Type 0 where
  lock : (g : Globals) → g.mutex ≡ false → Move g locking (record g { mutex = true }) testing
  wait : (g : Globals) → g.ready ≡ false → Move g testing (record g { mutex = false }) sleeping
  wake : (g : Globals) → g.mutex ≡ false → Move g sleeping (record g { mutex = true }) testing
  leave : (g : Globals) → g.ready ≡ true → Move g testing g unlocking
  unlock : (g : Globals) → Move g unlocking (record g { mutex = false }) reading
  read : (g : Globals) → Move g reading g (finished g.value)

-- Where `main` stands: in a round of the first loop, before each of the statements between the
-- loops, in a round of the second loop, or behind it.
pub data MainPc : Type 0 where
  creating joining : ℕ → MainPc
  writing main_locking setting broadcasting main_unlocking returned : MainPc

pub record System : Type 0 where
  pub shared : Globals
  pub main : MainPc
  pub threads : ℕ → Option Pc

abbrev pub finished? : Pc → Bool
finished? (finished x) = true
finished? _ = false

-- The thread of a round is over, or has never been.
abbrev pub IsOver : Option Pc → Type 0
IsOver none = Unit
IsOver (some l) = finished? l ≡ true

-- The statements of `main` between its loops.
pub data MainMove : Globals → MainPc → Globals → MainPc → Type 0 where
  write : (g : Globals) (random : ℕ) → MainMove g writing (record g { value = random }) main_locking
  main_lock :
      (g : Globals) → g.mutex ≡ false → MainMove g main_locking (record g { mutex = true }) setting
  set : (g : Globals) → MainMove g setting (record g { ready = true }) broadcasting
  broadcast : (g : Globals) → MainMove g broadcasting g main_unlocking
  main_unlock : (g : Globals) → MainMove g main_unlocking (record g { mutex = false }) (joining 0)

-- A step of `main` or of a thread, where `main` starts `n` threads.
pub data Step (n : ℕ) (s : System) : System → Type 0 where
  create :
      (i : ℕ)
      → s.main ≡ creating i
      → i < n
      → Step n s (record s { main = creating (suc i); threads = update s.threads i (some locking) })
  create_fails :
      (i : ℕ) → s.main ≡ creating i → i < n → Step n s (record s { main = creating (suc i) })
  all_created : (i : ℕ) → s.main ≡ creating i → n ≤ i → Step n s (record s { main = writing })
  go :
      {p p' : MainPc} {g' : Globals}
      → s.main ≡ p
      → MainMove s.shared p g' p'
      → Step n s (record s { shared = g'; main = p' })
  join :
      (i : ℕ)
      → s.main ≡ joining i
      → i < n
      → IsOver (s.threads i)
      → Step n s (record s { main = joining (suc i) })
  all_joined : (i : ℕ) → s.main ≡ joining i → n ≤ i → Step n s (record s { main = returned })
  work :
      (i : ℕ) {l l' : Pc} {g' : Globals}
      → s.threads i ≡ some l
      → Move s.shared l g' l'
      → Step n s (record s { shared = g'; threads = update s.threads i (some l') })

abbrev pub init : System
init = record {
  shared = record { value = 0; ready = false; mutex = false };
  main = creating 0;
  threads = λ i. none;
}

-- `threads_total`, for a value of `rand`, which is not negative.
abbrev pub threads_total : ℕ → ℕ
threads_total random = random % 128

-- The states that a run with this value of `rand` reaches.
pub data Reach (random : ℕ) : System → Type 0 where
  start : Reach random init
  later : {s t : System} → Reach random s → Step (threads_total random) s t → Reach random t
