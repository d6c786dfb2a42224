-- ===== src/Threads/Pool.antt =====
-- A `main` that creates up to `n` threads in one loop and joins them in the next, as the programs
-- under examples/ do, over any kind of thread. The threads run interleaved, a shared access at a
-- time. pthread_create may fail, and then no thread runs; a join of that round does not wait.
pub mod Joined
pub mod Exclusion
pub mod Locals
pub mod Tally
use clang_witness_inject.Prelude.{
  ℕ, suc, ◌<◌, ◌≤◌, ◌≡◌, Bool, true, Option, none, some, if◌then◌else◌, ◌==◌,
}

-- One kind of thread: the memory that threads share, where a thread stands with its own memory, what
-- `main` writes in round `i` before it creates the thread, how that thread begins, when a thread has
-- ended, and its moves.
pub record Worker : Type 1 where
  pub Shared : Type 0
  pub Local : Type 0
  pub prepare : ℕ → Shared → Shared
  pub begin : ℕ → Local
  pub ended : Local → Bool
  pub Move : Shared → Local → Shared → Local → Type 0

-- Where `main` stands: in round `i` of the first loop or of the second, or behind both.
pub data MainPc : Type 0 where
  creating joining : ℕ → MainPc
  returned : MainPc

abbrev pub update {ℓ} : {A : Type ℓ} → (ℕ → A) → ℕ → A → ℕ → A
update f i a j = if i == j then a else f j

module _ (w : Worker) where
  open w use {Shared, Local, prepare, begin, ended, Move}

  pub record System : Type 0 where
    pub shared : Shared
    pub main : MainPc
    pub threads : ℕ → Option Local

  -- The thread of a round is over, or has never been.
  abbrev pub IsOver : Option Local → Type 0
  IsOver none = Unit
  IsOver (some l) = ended l ≡ true

  -- A step of `main` or of a thread, where `main` starts `n` threads.
  pub data Step (n : ℕ) (s : System) : System → Type 0 where
    create :
        (i : ℕ)
        → s.main ≡ creating i
        → i < n
        → Step n s (record {
          shared = prepare i s.shared;
          main = creating (suc i);
          threads = update s.threads i (some (begin i));
        })
    create_fails :
        (i : ℕ)
        → s.main ≡ creating i
        → i < n
        → Step n s (record s { shared = prepare i s.shared; main = creating (suc i) })
    all_created : (i : ℕ) → s.main ≡ creating i → n ≤ i → Step n s (record s { main = joining 0 })
    join :
        (i : ℕ)
        → s.main ≡ joining i
        → i < n
        → IsOver (s.threads i)
        → Step n s (record s { main = joining (suc i) })
    all_joined : (i : ℕ) → s.main ≡ joining i → n ≤ i → Step n s (record s { main = returned })
    work :
        (i : ℕ) {l l' : Local} {g' : Shared}
        → s.threads i ≡ some l
        → Move s.shared l g' l'
        → Step n s (record s { shared = g'; threads = update s.threads i (some l') })

  abbrev pub init : Shared → System
  init g = record { shared = g; main = creating 0; threads = λ i. none }

  pub data Reach (n : ℕ) (g : Shared) : System → Type 0 where
    start : Reach n g (init g)
    later : {s t : System} → Reach n g s → Step n s t → Reach n g t
