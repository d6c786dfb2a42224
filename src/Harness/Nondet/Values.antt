-- ===== src/Harness/Nondet/Values.antt =====
-- Which values the functions of fuzz_harness/fuzz_harness.c can give.
use clang_witness_inject.Prelude.{
  ℕ, zero, suc, ◌+◌, ◌*◌, ◌/◌, ◌%◌, ◌^◌, ◌<◌, ◌≤◌, ◌≡◌, ◌≢◌, refl, ap, ◌∷◌, arith, none, some, ◌↔◌,
}
use native.Mathlib.Nat.{pow-suc}
use clang_witness_inject.Harness.Nondet.{
  NondetType, size_of, harness_rand, load, fill, nondet, assume,
}

-- Whatever was read, the harness's `rand` gives a value from 0 to RAND_MAX, where RAND_MAX is an
-- `int` that is not negative.
harness_rand-le : (rand_max res : ℕ) → rand_max < 2 ^ 31 → harness_rand rand_max res ≤ rand_max
unfolding harness_rand
harness_rand-le rand_max res h = grind arith

-- Every value from 0 to RAND_MAX is given by the harness's `rand` for some 32-bit pattern.
harness_rand-reaches :
    (rand_max r : ℕ)
    → rand_max < 2 ^ 31
    → r ≤ rand_max
    → (res : ℕ) × (res < 2 ^ 32) × (harness_rand rand_max res ≡ r)
unfolding harness_rand
harness_rand-reaches rand_max r h p = (r, omega arith, grind arith)

load-lt : (rand : ℕ → ℕ) (n call : ℕ) → load (fill rand n call).0 < 256 ^ n
unfolding load fill
load-lt rand zero call = omega arith
load-lt rand (suc n) call = rw pow-suc (omega (arith, load-lt rand n (suc call)))

-- The bytes of `v`, the lowest first.
unfoldable pub byte_of : ℕ → ℕ → ℕ
byte_of v zero = v % 256
byte_of v (suc i) = byte_of (v / 256) i

fill-byte_of :
    (n v call : ℕ) → (fill (byte_of v) n (suc call)).0 ≡ (fill (byte_of (v / 256)) n call).0
unfolding fill byte_of
fill-byte_of zero v call = refl
fill-byte_of (suc n) v call =
    ap (λ bs. byte_of (v / 256) call % 256 ∷ bs) (fill-byte_of n v (suc call))

byte_of-le : (i v : ℕ) → byte_of v i ≤ 255
unfolding byte_of
byte_of-le zero v = omega arith
byte_of-le (suc i) v = byte_of-le i (v / 256)

load-byte_of : (n v : ℕ) → v < 256 ^ n → load (fill (byte_of v) n 0).0 ≡ v
unfolding load fill byte_of
load-byte_of zero v h = omega arith
load-byte_of (suc n) v h =
    rw (fill-byte_of n v 0) (omega (arith, load-byte_of n (v / 256) (omega (arith, pow-suc 256 n))))

fill-next : (rand : ℕ → ℕ) (n call : ℕ) → (fill rand n call).1 ≡ call + n
unfolding fill
fill-next rand zero call = omega arith
fill-next rand (suc n) call = omega (arith, fill-next rand n (suc call))

byte_of-fill :
    (rand : ℕ → ℕ) (n call j : ℕ)
    → j < n
    → byte_of (load (fill rand n call).0) j ≡ rand (call + j) % 256
unfolding fill load byte_of
byte_of-fill rand zero call j h = absurd (omega arith)
byte_of-fill rand (suc n) call zero h =
    let same : call + 0 ≡ call = omega arith in rw same (omega arith)
byte_of-fill rand (suc n) call (suc j) h =
    let rest = load (fill rand n (suc call)).0 in
    let behind : (rand call % 256 + 256 * rest) / 256 ≡ rest = omega arith in
    let at : call + suc j ≡ suc call + j = omega arith in
    rw (behind, at) (byte_of-fill rand n (suc call) j (omega arith))

-- Byte `j` of a value of a type is the low byte of the j-th call of `rand` from `call` on, the value
-- has no further bytes, and the next value begins with the call behind the last of these.
pub nondet_bytes :
    (rand : ℕ → ℕ) (t : NondetType) (call : ℕ)
    → ((j : ℕ) → j < size_of t → byte_of (nondet rand t call).0 j ≡ rand (call + j) % 256)
      × ((nondet rand t call).0 < 256 ^ size_of t)
      × ((nondet rand t call).1 ≡ call + size_of t)
unfolding nondet
nondet_bytes rand t call = (
  byte_of-fill rand (size_of t) call,
  load-lt rand (size_of t) call,
  fill-next rand (size_of t) call,
)

-- Every pattern of the size of a type is given for some values of `rand`, none of them above 255.
nondet-reaches :
    (t : NondetType) (v : ℕ)
    → v < 256 ^ size_of t
    → (rand : ℕ → ℕ) × ((i : ℕ) → rand i ≤ 255) × ((nondet rand t 0).0 ≡ v)
unfolding nondet
nondet-reaches t v h = (byte_of v, λ i. byte_of-le i v, load-byte_of (size_of t) v h)

assume-zero : (fuel : ℕ) → assume fuel 0 ≡ none
unfolding assume
assume-zero zero = refl
assume-zero (suc fuel) = assume-zero fuel

-- `__VERIFIER_assume` returns if and only if its argument is not 0; if it is 0, the loop runs on for
-- any number of rounds.
assume-returns_iff :
    (expression : ℕ) → ((fuel : ℕ) × (assume fuel expression ≡ some tt)) ↔ (expression ≢ 0)
unfolding assume
assume-returns_iff expression =
    (λ (fuel, h) e. cc (assume-zero fuel, ap (assume fuel) e), λ e. (1, ground arith))
