-- ===== src/Harness/Nondet/Memory.antt =====
-- `__VERIFIER_nondet_memory` of fuzz_harness/fuzz_harness.c.
use clang_witness_inject.Prelude.{ℕ, zero, suc, ◌+◌, ◌%◌, ◌<◌, ◌≤◌, ◌≡◌, refl, ◌⊎◌, inl, arith}
use native.Mathlib.Nat.{add-zero}
use clang_witness_inject.Harness.Nondet.{Memory, store, fill_memory, nondet, uchar, fill, load}

module _ (rand : ℕ → ℕ) where
  uchar-byte :
      (call : ℕ)
      → ((nondet rand uchar call).0 ≡ rand call % 256) × ((nondet rand uchar call).1 ≡ suc call)
  unfolding nondet fill load
  uchar-byte call = (omega arith, omega arith)

  -- `__VERIFIER_nondet_memory` leaves every byte as it was that is not among the `n` from address `p`
  -- on.
  fill_memory-outside :
      (n p call : ℕ) (mem : Memory rand) (a : ℕ)
      → (a < p) ⊎ (p + n ≤ a)
      → (fill_memory rand n p call mem).0 a ≡ mem a
  unfolding fill_memory store
  fill_memory-outside zero p call mem a h = refl
  fill_memory-outside (suc n) p call mem a h = ground (
    arith,
    fill_memory-outside n (suc p) (nondet rand uchar call).1
        (store rand mem p (nondet rand uchar call).0) a,
  )

  fill_memory-head :
      (n p call : ℕ) (mem : Memory rand)
      → (fill_memory rand (suc n) p call mem).0 p ≡ rand call % 256
  unfolding fill_memory store
  fill_memory-head n p call mem =
      let (b, next) = nondet rand uchar call in
      let below = fill_memory-outside n (suc p) next (store rand mem p b) p (inl (omega arith)) in
      ground (arith, below, uchar-byte call)

  -- `__VERIFIER_nondet_memory` sets the byte at offset `j`, below the size `n`, to the low byte of the
  -- j-th call of `rand` from then on.
  pub fill_memory-inside :
      (n p call : ℕ) (mem : Memory rand) (j : ℕ)
      → j < n
      → (fill_memory rand n p call mem).0 (p + j) ≡ rand (call + j) % 256
  unfolding fill_memory store
  fill_memory-inside zero p call mem j h = absurd (omega arith)
  fill_memory-inside (suc n) p call mem zero h =
      rw (add-zero, add-zero) (fill_memory-head n p call mem)
  fill_memory-inside (suc n) p call mem (suc j) h =
      let (b, next) = nondet rand uchar call in
      let at : p + suc j ≡ suc p + j = omega arith in
      let later : call + suc j ≡ next + j = omega (arith, uchar-byte call) in
      rw (at, later) (fill_memory-inside n (suc p) next (store rand mem p b) j (omega arith))

  -- `__VERIFIER_nondet_memory` makes one call of `rand` for each byte.
  pub fill_memory-call :
      (n p call : ℕ) (mem : Memory rand) → (fill_memory rand n p call mem).1 ≡ call + n
  unfolding fill_memory
  fill_memory-call zero p call mem = omega arith
  fill_memory-call (suc n) p call mem = omega (
    arith,
    uchar-byte call,
    fill_memory-call n (suc p) (nondet rand uchar call).1
        (store rand mem p (nondet rand uchar call).0),
  )
