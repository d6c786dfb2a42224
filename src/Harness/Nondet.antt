-- ===== src/Harness/Nondet.antt =====
-- fuzz_harness/fuzz_harness.c: the random values of the `__VERIFIER_` functions, and `assume`.
-- `rand` of the C library is a parameter: the value of its n-th call. Integers are bit patterns, and
-- lie in memory with the low byte first.
pub mod Values
pub mod Memory
use clang_witness_inject.Prelude.{
  ℕ, zero, suc, ◌+◌, ◌*◌, ◌%◌, ◌^◌, Option, none, some, List, [], ◌∷◌, if◌then◌else◌, ◌==◌,
}

-- The instances of DEFINE_NONDET and DEFINE_NONDET2, and `sizeof` of their types on x86-64.
pub data NondetType : Type 0 where
  bool char int int128 uint128 float double long longlong pthread_t short : NondetType
  size_t u32 uchar ulong ulonglong unsigned ushort : NondetType

abbrev pub size_of : NondetType → ℕ
size_of bool = 1
size_of char = 1
size_of int = 4
size_of int128 = 16
size_of uint128 = 16
size_of float = 4
size_of double = 8
size_of long = 8
size_of longlong = 8
size_of pthread_t = 8
size_of short = 2
size_of size_t = 8
size_of u32 = 4
size_of uchar = 1
size_of ulong = 8
size_of ulonglong = 8
size_of unsigned = 4
size_of ushort = 2

-- `__fuzz_harness_rand`, where `fread` leaves the pattern `res`, be it read or not.
unfoldable pub harness_rand : ℕ → ℕ → ℕ
harness_rand rand_max res = res % ((rand_max + 1) % 2 ^ 32)

-- The value of a buffer.
unfoldable pub load : List ℕ → ℕ
load [] = 0
load (b ∷ bs) = b + 256 * load bs

module _ (rand : ℕ → ℕ) where
  -- The loop of DEFINE_NONDET2: `n` bytes from the calls of `rand` that start at `call`, and the
  -- number of the next call.
  unfoldable pub fill : ℕ → ℕ → List ℕ × ℕ
  fill zero call = ([], call)
  fill (suc n) call = let (bytes, next) = fill n (suc call) in ((rand call % 256) ∷ bytes, next)

  -- `__VERIFIER_nondet_` of a type, and the number of the next call.
  unfoldable pub nondet : NondetType → ℕ → ℕ × ℕ
  unfolding fill load
  nondet t call = let (buffer, next) = fill (size_of t) call in (load buffer, next)

  abbrev pub Memory : Type 0
  Memory = ℕ → ℕ

  unfoldable pub store : Memory → ℕ → ℕ → Memory
  store mem p b a = if a == p then b else mem a

  -- The loop of `__VERIFIER_nondet_memory`, from the address `p` on.
  unfoldable pub fill_memory : ℕ → ℕ → ℕ → Memory → Memory × ℕ
  fill_memory zero p call mem = (mem, call)
  fill_memory (suc n) p call mem =
      let (b, next) = nondet uchar call in fill_memory n (suc p) next (store mem p b)

-- `__VERIFIER_assume`, for as many rounds as there is fuel. `none` means that it is still running.
unfoldable pub assume : ℕ → ℕ → Option (Unit {0})
assume zero expression = none
assume (suc fuel) expression =
    let rest = assume fuel expression in if expression == 0 then rest else some tt
