-- ===== src/Threads/PerThreadArrayInit.antt =====
-- examples/per-thread-array-init.c: each thread reads a cell that `main` has written before.
use clang_witness_inject.Prelude.{
  ℕ, ◌%◌, ◌≡◌, ◌≢◌, refl, Bool, true, false, some, arith, sym, ◌∙◌, subst, ◌==◌, ap, Bool-cases,
  ==_iff, inl, inr,
}
use clang_witness_inject.Threads.Pool.{
  Worker, System, Step, create, create_fails, all_created, join, all_joined, work, Reach, start,
  later, creating, update,
}
use clang_witness_inject.Threads.Pool.Joined.{creating-none}

-- The array `is`.
pub record Globals : Type 0 where
  pub cells : ℕ → ℕ

-- `thread` before its read, with the index of its cell, and at its end, with what it read.
pub data Pc : Type 0 where
  reading finished : ℕ → Pc

abbrev pub finished? : Pc → Bool
finished? (finished v) = true
finished? (reading i) = false

pub data Move : Globals → Pc → Globals → Pc → Type 0 where
  read : (g : Globals) (i : ℕ) → Move g (reading i) g (finished (g.cells i))

-- `main` writes `is[i] = i` before it creates the thread of round `i`, and gives it the address of
-- that cell.
abbrev pub thread : Worker
thread = record {
  Shared = Globals;
  Local = Pc;
  prepare = λ i g. record { cells = update g.cells i i };
  begin = reading;
  ended = finished?;
  Move = Move;
}

-- `threads_total`, for a value of `rand`, which is not negative.
abbrev pub threads_total : ℕ → ℕ
threads_total random = random % 128

-- The states that a run reaches, from any contents of the memory.
abbrev pub Runs : (random : ℕ) → Globals → System thread → Type 0
Runs random g = Reach thread (threads_total random) g

stops : (g : Globals) (l : Pc) (g' : Globals) (l' : Pc) → Move g l g' l' → finished? l ≡ false
stops g l g' l' (read _ i) = refl

abbrev Good : ℕ → (ℕ → ℕ) → Pc → Type 0
Good a cells (reading i) = (i ≡ a) × (cells a ≡ a)
Good a cells (finished v) = (v ≡ a) × (cells a ≡ a)

abbrev AllGood : System thread → Type 0
AllGood s = (a : ℕ) (l : Pc) → s.threads a ≡ some l → Good a s.shared.cells l

Good-prepare : (a i : ℕ) (cells : ℕ → ℕ) (l : Pc) → Good a cells l → Good a (update cells i i) l
Good-prepare a i cells (reading k) h = ground arith
Good-prepare a i cells (finished v) h = ground arith

Good-begin :
    (a i : ℕ) (cells : ℕ → ℕ) (l : Pc)
    → i ≡ a
    → some (reading i) ≡ some l
    → Good a (update cells i i) l
Good-begin a i cells (reading k) same q = ground arith
Good-begin a i cells (finished v) same q = cc

Good-read :
    (a : ℕ) (g g' : Globals) (l l' : Pc) → Move g l g' l' → Good a g.cells l → Good a g'.cells l'
Good-read a g g' l l' (read _ i) h = ground arith

read_only : (g g' : Globals) (l l' : Pc) → Move g l g' l' → g ≡ g'
read_only g g' l l' (read _ i) = refl

step-AllGood : {n : ℕ} {s t : System thread} → Step thread n s t → AllGood s → AllGood t
step-AllGood {s = s} (create i e h) good = λ a l q. elim (Bool-cases (i == a)) [
  | inl same ↦ Good-begin a i s.shared.cells l ((==_iff i a).0 same) (ground arith)
  | inr other ↦ Good-prepare a i s.shared.cells l (good a l (ground arith))
]
step-AllGood {s = s} (create_fails i e h) good =
    λ a l q. Good-prepare a i s.shared.cells l (good a l q)
step-AllGood (all_created i e h) good = good
step-AllGood (join i e h o) good = good
step-AllGood (all_joined i e h) good = good
step-AllGood {s = s} (work i {l = k} {l' = k'} {g' = g'} e m) good = λ a l q.
    elim (Bool-cases (i == a)) [
      | inl same ↦
          let at : i ≡ a = (==_iff i a).0 same in
          let here : s.threads a ≡ some k = ap s.threads (sym at) ∙ e in
          let moved : k' ≡ l = ground arith in
          subst (Good a g'.cells) moved (Good-read a s.shared g' k k' m (good a k here))
      | inr other ↦
          subst (λ (g : Globals). Good a g.cells l) (read_only s.shared g' k k' m)
            (good a l (ground arith))
    ]

reach-AllGood : {n : ℕ} {g : Globals} {s : System thread} → Reach thread n g s → AllGood s
reach-AllGood start = λ a l q. cc
reach-AllGood (later r st) = step-AllGood st (reach-AllGood r)

-- A thread that has ended has read the number of its own round, which `main` wrote before it created
-- the thread; no later write of `main` and no other thread has changed it.
pub array_init_reads_own :
    (random : ℕ) {g : Globals} {s : System thread} {v : ℕ}
    → Runs random g s
    → (a : ℕ) → s.threads a ≡ some (finished v)
    → v ≡ a
array_init_reads_own random {v = v} r a e = (reach-AllGood r a (finished v) e).0

-- While `main` is in the round in which it writes cell `k`, no thread stands before a read of that
-- cell, so write and read are not a race.
array_init_no_race :
    (random : ℕ) {g : Globals} {s : System thread} {k i : ℕ}
    → Runs random g s
    → s.main ≡ creating k
    → (a : ℕ) → s.threads a ≡ some (reading i)
    → i ≢ k
array_init_no_race random {k = k} {i = i} r at a e same =
    let own : i ≡ a = (reach-AllGood r a (reading i) e).0 in
    cc (creating-none thread (threads_total random) stops r at a (omega arith))
