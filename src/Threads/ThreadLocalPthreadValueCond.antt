-- ===== src/Threads/ThreadLocalPthreadValueCond.antt =====
-- examples/thread-local-pthread-value-cond.c: a mutex that a thread takes and gives back only if the
-- value of its key is the address of its second variable, as it is.
use clang_witness_inject.Prelude.{ℕ, ap, ◌+◌, ◌%◌, ◌^◌, ◌≡◌, ◌≢◌, refl, Bool, true, false, some}
use clang_witness_inject.Threads.Pool.{Worker, System, Reach}
use clang_witness_inject.Threads.Pool.Exclusion.{Lock, Discipline, takes, gives, keeps, one_inside}
use clang_witness_inject.Threads.ThreadLocalPthreadValue.{Address, null, x, y, same}

pub record Globals : Type 0 where
  pub shared : ℕ  -- int
  pub mutex : Bool

-- Where `thread` stands, with the value of its key: before each of its statements and calls.
pub data Pc : Type 0 where
  set_x set_y before_lock locking incrementing before_unlock unlocking finished :
      (key : Address) → Pc

abbrev pub has_ended : Pc → Bool
has_ended (finished key) = true
has_ended _ = false

pub data Move : Globals → Pc → Globals → Pc → Type 0 where
  sets_x : (g : Globals) (key : Address) → Move g (set_x key) g (set_y x)
  sets_y : (g : Globals) (key : Address) → Move g (set_y key) g (before_lock y)
  enter_if :
      (g : Globals) (key : Address) → same key y ≡ true → Move g (before_lock key) g (locking key)
  skip_if :
      (g : Globals) (key : Address)
      → same key y ≡ false
      → Move g (before_lock key) g (incrementing key)
  lock :
      (g : Globals) (key : Address)
      → g.mutex ≡ false
      → Move g (locking key) (record g { mutex = true }) (incrementing key)
  increment :
      (g : Globals) (key : Address)
      → Move g
          (incrementing key)
          (record g { shared = (g.shared + 1) % 2 ^ 32 })
          (before_unlock key)
  leave_if :
      (g : Globals) (key : Address)
      → same key y ≡ true
      → Move g (before_unlock key) g (unlocking key)
  skip_leave :
      (g : Globals) (key : Address)
      → same key y ≡ false
      → Move g (before_unlock key) g (finished key)
  unlock :
      (g : Globals) (key : Address)
      → Move g (unlocking key) (record g { mutex = false }) (finished key)

abbrev pub thread : Worker
thread = record {
  Shared = Globals;
  Local = Pc;
  prepare = λ i g. g;
  begin = λ i. set_x null;
  ended = has_ended;
  Move = Move;
}

abbrev pub globals : Globals
globals = record { shared = 0; mutex = false }

-- `threads_total`, for a value of `rand`, which is not negative.
abbrev pub threads_total : ℕ → ℕ
threads_total random = random % 128

abbrev pub Runs : ℕ → System thread → Type 0
Runs random = Reach thread (threads_total random) globals

-- The key has the address of `y` from the second call of pthread_setspecific on.
abbrev Fine : Pc → Type 0
Fine (set_x key) = Unit
Fine (set_y key) = Unit
Fine (before_lock key) = key ≡ y
Fine (locking key) = key ≡ y
Fine (incrementing key) = key ≡ y
Fine (before_unlock key) = key ≡ y
Fine (unlocking key) = key ≡ y
Fine (finished key) = Unit

stays-Fine : (g : Globals) (l : Pc) (g' : Globals) (l' : Pc) → Fine l → Move g l g' l' → Fine l'
stays-Fine g l g' l' h (sets_x _ key) = tt
stays-Fine g l g' l' h (sets_y _ key) = refl
stays-Fine g l g' l' h (enter_if _ key e) = h
stays-Fine g l g' l' h (skip_if _ key e) = h
stays-Fine g l g' l' h (lock _ key free) = h
stays-Fine g l g' l' h (increment _ key) = h
stays-Fine g l g' l' h (leave_if _ key e) = h
stays-Fine g l g' l' h (skip_leave _ key e) = tt
stays-Fine g l g' l' h (unlock _ key) = tt

abbrev inside : Pc → Bool
inside (incrementing key) = true
inside (before_unlock key) = true
inside (unlocking key) = true
inside _ = false

same-y : (key : Address) → key ≡ y → same key y ≢ false
same-y key h e = cc (ap (λ k. same k y) h)

obeys :
    (g : Globals) (l : Pc) (g' : Globals) (l' : Pc)
    → Fine l
    → Move g l g' l'
    → Discipline g.mutex g'.mutex (inside l) (inside l')
obeys g l g' l' h (sets_x _ key) = keeps
obeys g l g' l' h (sets_y _ key) = keeps
obeys g l g' l' h (enter_if _ key e) = keeps
obeys g l g' l' h (skip_if _ key e) = absurd (same-y key h e)
obeys g l g' l' h (lock _ key free) = rw free takes
obeys g l g' l' h (increment _ key) = keeps
obeys g l g' l' h (leave_if _ key e) = keeps
obeys g l g' l' h (skip_leave _ key e) = absurd (same-y key h e)
obeys g l g' l' h (unlock _ key) = gives

abbrev shared_lock : Lock thread
shared_lock = record {
  Fine = Fine;
  locked = λ g. g.mutex;
  inside = inside;
  prepared = λ i g. refl;
  begins_outside = λ i. refl;
  begins_fine = λ i. tt;
  stays_fine = stays-Fine;
  obeys = obeys;
}

-- In no reachable state do two threads stand before the increment of `shared`, so it is not a race,
-- though each thread takes the mutex under a condition.
value_cond_one_writer :
    (random : ℕ) {s : System thread} {k m : Address}
    → Runs random s
    → (i j : ℕ) → s.threads i ≡ some (incrementing k)
    → s.threads j ≡ some (incrementing m)
    → i ≡ j
value_cond_one_writer random r i j e f =
    one_inside thread shared_lock (threads_total random) r i j e f refl refl
