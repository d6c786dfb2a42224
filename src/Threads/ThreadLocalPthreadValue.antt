-- ===== src/Threads/ThreadLocalPthreadValue.antt =====
-- examples/thread-local-pthread-value.c: assertions on the value of a key, which pthread_setspecific
-- and pthread_getspecific keep for each thread apart.
use clang_witness_inject.Prelude.{
  ℕ, ◌%◌, ◌≡◌, ◌≢◌, refl, subst, Bool, true, false, not, Option, none, some,
}
use clang_witness_inject.Threads.Pool.{Worker, System, Reach}
use clang_witness_inject.Threads.Pool.Locals.{reach-Each}

-- The addresses of the two variables of a thread, and the value of its key: NULL until it is set.
pub data Address : Type 0 where
  null x y : Address

abbrev pub same : Address → Address → Bool
same null null = true
same x x = true
same y y = true
same _ _ = false

-- Where `thread` stands, with the value of its key: before each of its statements, at its end, or in
-- `reach_error` behind an assertion that failed.
pub data Pc : Type 0 where
  set_x assert_x set_y assert_y assert_not_x finished failed : (key : Address) → Pc

-- `__VERIFIER_assert`.
abbrev pub verifier_assert : Bool → Pc → Address → Pc
verifier_assert true next key = next
verifier_assert false next key = failed key

-- The next statement of a thread that has not ended.
unfoldable pub next : Pc → Option Pc
next (set_x key) = some (assert_x x)
next (assert_x key) = some (verifier_assert (same key x) (set_y key) key)
next (set_y key) = some (assert_y y)
next (assert_y key) = some (verifier_assert (same key y) (assert_not_x key) key)
next (assert_not_x key) = some (verifier_assert (not (same key x)) (finished key) key)
next (finished key) = none
next (failed key) = none

abbrev pub has_ended : Pc → Bool
has_ended (finished key) = true
has_ended _ = false

-- No memory is shared but the key itself, which `main` creates before the threads.
pub data Move : Unit {0} → Pc → Unit {0} → Pc → Type 0 where
  go : (g : Unit {0}) (p p' : Pc) → next p ≡ some p' → Move g p g p'

abbrev pub thread : Worker
thread = record {
  Shared = Unit {0};
  Local = Pc;
  prepare = λ i g. g;
  begin = λ i. set_x null;
  ended = has_ended;
  Move = Move;
}

-- `threads_total`, for a value of `rand`, which is not negative.
abbrev pub threads_total : ℕ → ℕ
threads_total random = random % 128

abbrev pub Runs : ℕ → System thread → Type 0
Runs random = Reach thread (threads_total random) tt

-- What a thread knows of its key.
abbrev Knows : Pc → Type 0
Knows (set_x key) = Unit
Knows (assert_x key) = key ≡ x
Knows (set_y key) = Unit
Knows (assert_y key) = key ≡ y
Knows (assert_not_x key) = key ≡ y
Knows (finished key) = Unit
Knows (failed key) = ⊥

abbrev KnowsAfter : Option Pc → Type 0
KnowsAfter none = Unit
KnowsAfter (some p) = Knows p

next-KnowsAfter : (p : Pc) → Knows p → KnowsAfter (next p)
unfolding next
next-KnowsAfter (set_x key) h = refl
next-KnowsAfter (assert_x key) h = rw h tt
next-KnowsAfter (set_y key) h = refl
next-KnowsAfter (assert_y key) h = rw h refl
next-KnowsAfter (assert_not_x key) h = rw h tt
next-KnowsAfter (finished key) h = tt
next-KnowsAfter (failed key) h = absurd h

moves : (g : Unit {0}) (l : Pc) (g' : Unit {0}) (l' : Pc) → Knows l → Move g l g' l' → Knows l'
moves g l g' l' h (go _ _ _ e) = subst KnowsAfter e (next-KnowsAfter l h)

-- No assertion of any thread on the value of the key fails in any run.
pthread_value_asserts :
    (random : ℕ) {s : System thread} {key : Address}
    → Runs random s
    → (i : ℕ) → s.threads i ≢ some (failed key)
pthread_value_asserts random {key = key} r i e =
    reach-Each thread (threads_total random) (λ a l. Knows l) (λ a h. tt)
      (λ a g l g' l' p m. moves g l g' l' p m) r i (failed key) e
