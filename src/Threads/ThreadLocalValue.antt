-- ===== src/Threads/ThreadLocalValue.antt =====
-- examples/thread-local-value.c: assertions on a variable of which each thread has its own copy.
use clang_witness_inject.Prelude.{
  ℕ, ◌%◌, ◌≡◌, ◌≢◌, refl, subst, Bool, true, false, not, Option, none, some, ◌==◌,
}
use clang_witness_inject.Threads.Pool.{Worker, System, Reach}
use clang_witness_inject.Threads.Pool.Locals.{reach-Each}

-- Where `thread` stands, with its own `data`: before each of its statements, at its end, or in
-- `reach_error` behind an assertion that failed.
pub data Pc : Type 0 where
  assert_zero set_one assert_one assert_not_zero finished failed : (value : ℕ) → Pc

-- `__VERIFIER_assert`.
abbrev pub verifier_assert : Bool → Pc → ℕ → Pc
verifier_assert true next value = next
verifier_assert false next value = failed value

-- The next statement of a thread that has not ended.
unfoldable pub next : Pc → Option Pc
next (assert_zero v) = some (verifier_assert (v == 0) (set_one v) v)
next (set_one v) = some (assert_one 1)
next (assert_one v) = some (verifier_assert (v == 1) (assert_not_zero v) v)
next (assert_not_zero v) = some (verifier_assert (not (v == 0)) (finished v) v)
next (finished v) = none
next (failed v) = none

abbrev pub has_ended : Pc → Bool
has_ended (finished v) = true
has_ended _ = false

-- No memory is shared.
pub data Move : Unit {0} → Pc → Unit {0} → Pc → Type 0 where
  go : (g : Unit {0}) (p p' : Pc) → next p ≡ some p' → Move g p g p'

abbrev pub thread : Worker
thread = record {
  Shared = Unit {0};
  Local = Pc;
  prepare = λ i g. g;
  begin = λ i. assert_zero 0;
  ended = has_ended;
  Move = Move;
}

-- `threads_total`, for a value of `rand`, which is not negative.
abbrev pub threads_total : ℕ → ℕ
threads_total random = random % 128

abbrev pub Runs : ℕ → System thread → Type 0
Runs random = Reach thread (threads_total random) tt

-- What a thread knows of its own copy.
abbrev Knows : Pc → Type 0
Knows (assert_zero v) = v ≡ 0
Knows (set_one v) = v ≡ 0
Knows (assert_one v) = v ≡ 1
Knows (assert_not_zero v) = v ≡ 1
Knows (finished v) = v ≡ 1
Knows (failed v) = ⊥

abbrev KnowsAfter : Option Pc → Type 0
KnowsAfter none = Unit
KnowsAfter (some p) = Knows p

next-KnowsAfter : (p : Pc) → Knows p → KnowsAfter (next p)
unfolding next
next-KnowsAfter (assert_zero v) h = rw h refl
next-KnowsAfter (set_one v) h = refl
next-KnowsAfter (assert_one v) h = rw h refl
next-KnowsAfter (assert_not_zero v) h = rw h refl
next-KnowsAfter (finished v) h = tt
next-KnowsAfter (failed v) h = absurd h

moves : (g : Unit {0}) (l : Pc) (g' : Unit {0}) (l' : Pc) → Knows l → Move g l g' l' → Knows l'
moves g l g' l' h (go _ _ _ e) = subst KnowsAfter e (next-KnowsAfter l h)

-- No assertion of any thread fails in any run.
local_value_asserts :
    (random : ℕ) {s : System thread} {v : ℕ}
    → Runs random s
    → (i : ℕ) → s.threads i ≢ some (failed v)
local_value_asserts random {v = v} r i e =
    reach-Each thread (threads_total random) (λ a l. Knows l) (λ a h. refl)
      (λ a g l g' l' p m. moves g l g' l' p m) r i (failed v) e
