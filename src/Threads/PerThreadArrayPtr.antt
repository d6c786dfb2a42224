-- ===== src/Threads/PerThreadArrayPtr.antt =====
-- examples/per-thread-array-ptr.c: each thread writes the cell whose address it is given.
use clang_witness_inject.Prelude.{ℕ, ◌<◌, ◌%◌, ◌≡◌, refl, Bool, true, false, some}
use clang_witness_inject.Threads.Pool.{Worker, System, Reach, returned, IsOver, update}
use clang_witness_inject.Threads.Pool.Joined.{returned-IsOver}
use clang_witness_inject.Threads.Pool.Locals.{reach-Each}

-- The memory that the threads write: an array of `threads_total` cells.
pub record Globals : Type 0 where
  pub datas : ℕ → ℕ

-- `thread` before its write, with the index of its cell, and at its end.
pub data Pc : Type 0 where
  writing : ℕ → Pc
  finished : Pc

abbrev pub finished? : Pc → Bool
finished? finished = true
finished? (writing i) = false

pub data Move : Globals → Pc → Globals → Pc → Type 0 where
  write :
      (g : Globals) (i random : ℕ)
      → Move g (writing i) (record { datas = update g.datas i random }) finished

-- The argument of round `i` is the address of cell `i`, which stands here as the index.
abbrev pub thread : Worker
thread = record {
  Shared = Globals;
  Local = Pc;
  prepare = λ i g. g;
  begin = writing;
  ended = finished?;
  Move = Move;
}

-- `threads_total`, for a value of `rand`, which is not negative.
abbrev pub threads_total : ℕ → ℕ
threads_total random = random % 128

-- The states that a run reaches, from any contents of the memory.
abbrev pub Runs : (random : ℕ) → Globals → System thread → Type 0
Runs random g = Reach thread (threads_total random) g

abbrev Own : ℕ → ℕ → Pc → Type 0
Own n a (writing i) = (i ≡ a) × (i < n)
Own n a finished = Unit

moves :
    (n a : ℕ) (g : Globals) (l : Pc) (g' : Globals) (l' : Pc)
    → Own n a l
    → Move g l g' l'
    → Own n a l'
moves n a g l g' l' p (write _ i random) = tt

-- A thread that is about to write writes the cell of its own round, which lies in the memory that
-- `main` allocated; so no two threads write one cell.
array_ptr_own_cell :
    (random : ℕ) {g : Globals} {s : System thread} {i : ℕ}
    → Runs random g s
    → (a : ℕ) → s.threads a ≡ some (writing i)
    → (i ≡ a) × (i < threads_total random)
array_ptr_own_cell random {i = i} r a e =
    reach-Each thread (threads_total random) (Own (threads_total random)) (λ b h. (refl, h))
      (moves (threads_total random)) r a (writing i) e

stops : (g : Globals) (l : Pc) (g' : Globals) (l' : Pc) → Move g l g' l' → finished? l ≡ false
stops g l g' l' (write _ i random) = refl

-- When `main` has left its second loop, and only then frees the memory, every thread that it
-- started has run to its end, so none is left that could write it.
array_ptr_all_finished :
    (random : ℕ) {g : Globals} {s : System thread}
    → Runs random g s
    → s.main ≡ returned
    → (i : ℕ) → IsOver thread (s.threads i)
array_ptr_all_finished random r e = returned-IsOver thread (threads_total random) stops r e
