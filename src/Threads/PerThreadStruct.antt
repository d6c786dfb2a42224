-- ===== src/Threads/PerThreadStruct.antt =====
-- examples/per-thread-struct.c: each thread writes and frees the struct that `main` has allocated for
-- it.
use clang_witness_inject.Prelude.{
  ℕ, ◌%◌, ◌≡◌, ◌≢◌, Bool, true, false, some, arith, sym, ◌∙◌, subst, ◌==◌, ap, Bool-cases, ==_iff,
  ◌⊎◌, inl, inr,
}
use clang_witness_inject.Threads.Pool.{
  Worker, System, Step, create, create_fails, all_created, join, all_joined, work, Reach, start,
  later, update,
}

-- The structs on the heap: `malloc` gives a new one in each round, which stands here under the
-- number of its round, so no address is used twice. `datas` is their field `data`.
pub record Globals : Type 0 where
  allocated : ℕ → Bool
  pub datas : ℕ → ℕ

-- Where `thread` stands, with the struct that it is given: before its write, before `free`, at its
-- end, or behind an access to memory that is not allocated.
pub data Pc : Type 0 where
  writing freeing : ℕ → Pc
  finished failed : Pc

abbrev pub finished? : Pc → Bool
finished? finished = true
finished? _ = false

pub data Move : Globals → Pc → Globals → Pc → Type 0 where
  write :
      (g : Globals) (t random : ℕ)
      → g.allocated t ≡ true
      → Move g (writing t) (record g { datas = update g.datas t random }) (freeing t)
  write_failed : (g : Globals) (t : ℕ) → g.allocated t ≡ false → Move g (writing t) g failed
  free :
      (g : Globals) (t : ℕ)
      → g.allocated t ≡ true
      → Move g (freeing t) (record g { allocated = update g.allocated t false }) finished
  free_failed : (g : Globals) (t : ℕ) → g.allocated t ≡ false → Move g (freeing t) g failed

abbrev pub thread : Worker
thread = record {
  Shared = Globals;
  Local = Pc;
  prepare = λ i g. record g { allocated = update g.allocated i true };
  begin = writing;
  ended = finished?;
  Move = Move;
}

-- Before any `malloc`, with any contents of the memory.
abbrev pub globals : (ℕ → ℕ) → Globals
globals datas = record { allocated = λ t. false; datas = datas }

-- `threads_total`, for a value of `rand`, which is not negative.
abbrev pub threads_total : ℕ → ℕ
threads_total random = random % 128

-- The states that a run reaches.
abbrev pub Runs : ℕ → (ℕ → ℕ) → System thread → Type 0
Runs random datas = Reach thread (threads_total random) (globals datas)

-- What holds of the thread of round `a`: its struct is its own, and allocated while it needs it.
abbrev Holds : ℕ → (ℕ → Bool) → Pc → Type 0
Holds a allocated (writing t) = (t ≡ a) × (allocated a ≡ true)
Holds a allocated (freeing t) = (t ≡ a) × (allocated a ≡ true)
Holds a allocated finished = Unit
Holds a allocated failed = ⊥

abbrev AllHold : System thread → Type 0
AllHold s = (a : ℕ) (l : Pc) → s.threads a ≡ some l → Holds a s.shared.allocated l

Holds-prepare :
    (a i : ℕ) (allocated : ℕ → Bool) (l : Pc)
    → Holds a allocated l
    → Holds a (update allocated i true) l
Holds-prepare a i allocated (writing t) h = ground arith
Holds-prepare a i allocated (freeing t) h = ground arith
Holds-prepare a i allocated finished h = tt
Holds-prepare a i allocated failed h = absurd h

Holds-begin :
    (a i : ℕ) (allocated : ℕ → Bool) → i ≡ a → Holds a (update allocated i true) (writing i)
Holds-begin a i allocated same = ground arith

-- A move of the thread of round `a`, for itself.
Holds-own :
    (a : ℕ) (g g' : Globals) (l l' : Pc)
    → Move g l g' l'
    → Holds a g.allocated l
    → Holds a g'.allocated l'
Holds-own a g g' l l' (write _ t random e) h = h
Holds-own a g g' l l' (write_failed _ t e) (same, live) = cc (ap g.allocated same)
Holds-own a g g' l l' (free _ t e) h = tt
Holds-own a g g' l l' (free_failed _ t e) (same, live) = cc (ap g.allocated same)

Holds-free :
    (a t : ℕ) (allocated : ℕ → Bool) (k : Pc)
    → Holds a allocated k
    → t ≢ a
    → Holds a (update allocated t false) k
Holds-free a t allocated (writing u) h other = ground arith
Holds-free a t allocated (freeing u) h other = ground arith
Holds-free a t allocated finished h other = tt
Holds-free a t allocated failed h other = absurd h

-- A move of the thread of round `i`, for the thread of another round `a`.
Holds-other :
    (a i : ℕ) (g g' : Globals) (l l' k : Pc)
    → Move g l g' l'
    → Holds i g.allocated l
    → i ≢ a
    → Holds a g.allocated k
    → Holds a g'.allocated k
Holds-other a i g g' l l' k (write _ t random e) own other h = h
Holds-other a i g g' l l' k (write_failed _ t e) own other h = h
Holds-other a i g g' l l' k (free _ t e) (same, live) other h =
    Holds-free a t g.allocated k h (λ q. other (sym same ∙ q))
Holds-other a i g g' l l' k (free_failed _ t e) own other h = h

step-AllHold : {n : ℕ} {s t : System thread} → Step thread n s t → AllHold s → AllHold t
step-AllHold {s = s} (create i e h) all = λ a l q. elim (Bool-cases (i == a)) [
  | inl same ↦
      let begun : writing i ≡ l = ground arith in
      subst (Holds a (update s.shared.allocated i true)) begun
        (Holds-begin a i s.shared.allocated ((==_iff i a).0 same))
  | inr other ↦ Holds-prepare a i s.shared.allocated l (all a l (ground arith))
]
step-AllHold {s = s} (create_fails i e h) all =
    λ a l q. Holds-prepare a i s.shared.allocated l (all a l q)
step-AllHold (all_created i e h) all = all
step-AllHold (join i e h o) all = all
step-AllHold (all_joined i e h) all = all
step-AllHold {s = s} (work i {l = k} {l' = k'} {g' = g'} e m) all = λ a l q.
    elim (Bool-cases (i == a)) [
      | inl same ↦
          let here : s.threads a ≡ some k = ap s.threads (sym ((==_iff i a).0 same)) ∙ e in
          let moved : k' ≡ l = ground arith in
          subst (Holds a g'.allocated) moved (Holds-own a s.shared g' k k' m (all a k here))
      | inr other ↦
          Holds-other a i s.shared g' k k' l m (all i k e) (λ same. ground (arith, same))
            (all a l (ground arith))
    ]

reach-AllHold :
    {n : ℕ} {datas : ℕ → ℕ} {s : System thread} → Reach thread n (globals datas) s → AllHold s
reach-AllHold start = λ a l q. cc
reach-AllHold (later r st) = step-AllHold st (reach-AllHold r)

-- No thread writes or frees a struct that is not allocated: there is no access behind `free` and no
-- second `free`.
struct_accesses :
    (random : ℕ) {datas : ℕ → ℕ} {s : System thread}
    → Runs random datas s
    → (a : ℕ) → s.threads a ≢ some failed
struct_accesses random r a e = reach-AllHold r a failed e

-- A thread that is about to write or to free holds the struct of its own round, so no two threads
-- write or free one struct.
struct_own :
    (random : ℕ) {datas : ℕ → ℕ} {s : System thread} {t : ℕ}
    → Runs random datas s
    → (a : ℕ) → (s.threads a ≡ some (writing t)) ⊎ (s.threads a ≡ some (freeing t))
    → t ≡ a
struct_own random {t = t} r a (inl e) = (reach-AllHold r a (writing t) e).0
struct_own random {t = t} r a (inr e) = (reach-AllHold r a (freeing t) e).0
