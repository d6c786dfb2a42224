-- ===== src/Fzy/Search/Partner.antt =====
-- The worker that worker `w` joins next in examples/fzy.c, `w | 1 << step`, as a sum.
use Prim.Native.Nat.{bit_or, bit_or-bitwise, digits, max}
use native.Mathlib.Nat.{pow-suc, pow-le-pow_right, mul-mod_left, div-add-mod'}
use clang_witness_inject.Fzy.Search.{has_next, next_worker}
use clang_witness_inject.Prelude.{
  ◌⊎◌, true, false, Bool-cases, leb, leb→le, inl, inr, subst, ℕ, zero, suc, ◌+◌, ◌-◌, ◌*◌, ◌/◌, ◌%◌,
  ◌^◌, ◌<◌, ◌≤◌, ◌≡◌, refl, arith, ◌==◌, ==_iff, ap, sym, ◌∙◌,
}

-- Two amounts of fuel that are enough give the same digits.
or_fuel : (k n a b : ℕ) → a ≤ k → a ≤ n → digits (λ y. y) max k a b ≡ digits (λ y. y) max n a b
or_fuel (suc k) (suc n) (suc a) b h i =
    rw (or_fuel k n (suc a / 2) (b / 2) (omega arith) (omega arith)) refl
or_fuel (suc k) (suc n) zero b h i = refl
or_fuel zero (suc n) zero b h i = refl
or_fuel (suc k) zero zero b h i = refl
or_fuel zero zero zero b h i = refl
or_fuel zero n (suc a) b h i = absurd (omega arith)
or_fuel (suc k) zero (suc a) b h i = absurd (omega arith)

or_lowest : (a b : ℕ) → bit_or a b ≡ bit_or (a / 2) (b / 2) * 2 + max (a % 2) (b % 2)
or_lowest zero b = simp bit_or-bitwise (omega arith)
or_lowest (suc a) b =
    let same = or_fuel a (suc a / 2) (suc a / 2) (b / 2) (omega arith) (omega arith) in
    simp bit_or-bitwise (ap (λ d. d * 2 + max (suc a % 2) (b % 2)) same)

or-zero : (n a : ℕ) → a ≤ n → bit_or a 0 ≡ a
or-zero n zero h = simp bit_or-bitwise refl
or-zero zero (suc a) h = absurd (omega arith)
or-zero (suc n) (suc a) h = omega (arith, or_lowest (suc a) 0, or-zero n (suc a / 2) (omega arith))

or_double : (a b : ℕ) → bit_or (a * 2) (b * 2) ≡ bit_or a b * 2
or_double a b =
    let low = or_lowest (a * 2) (b * 2) in
    let left : a * 2 / 2 ≡ a = omega arith in
    let right : b * 2 / 2 ≡ b = omega arith in
    let gone = rw (left, right) at low in omega (arith, gone)

or_power : (k q : ℕ) → bit_or (q * (2 * 2 ^ k)) (2 ^ k) ≡ q * (2 * 2 ^ k) + 2 ^ k
or_power zero q =
    let low = or_lowest (q * 2) 1 in
    let half : q * 2 / 2 ≡ q = omega arith in
    let gone = rw half at low in omega (arith, gone, or-zero q q (omega arith))
or_power (suc k) q =
    let power = 2 ^ k in
    let wide : q * (2 * (power * 2)) ≡ q * (2 * power) * 2 = grind arith in
    rw (pow-suc 2 k, wide)
      (or_double (q * (2 * power)) power ∙ ap (λ n. n * 2) (or_power k q) ∙ grind arith)

-- The condition of the last loop of a worker, and what it says of `w | 1 << step`.
pub next_worker_lem :
    (w step : ℕ)
    → has_next w step ≡ true
    → (next_worker w step ≡ w + 2 ^ step) × (w ≡ w / (2 * 2 ^ step) * (2 * 2 ^ step))
next_worker_lem w step h =
    let power = 2 ^ step in
    let even : w % (2 * power) ≡ 0 = (==_iff _ _).0 h in
    let whole : w ≡ w / (2 * power) * (2 * power) =
      omega (arith, div-add-mod' w (2 * power), even) in
    (
      ap (λ n. bit_or n power) whole
          ∙ or_power step (w / (2 * power))
          ∙ ap (λ n. n + power) (sym whole),
      whole,
    )

pub power_add : (d k : ℕ) → 2 ^ (d + k) ≡ 2 ^ d * 2 ^ k
power_add zero k = let same : 0 + k ≡ k = omega arith in rw same (omega arith)
power_add (suc d) k =
    let same : suc d + k ≡ suc (d + k) = omega arith in
    rw (same, pow-suc 2 (d + k), pow-suc 2 d, power_add d k) (grind arith)

multiple_even :
    (q d k : ℕ) → ((q * (2 * 2 ^ (d + suc k)) + 2 ^ (d + suc k)) % (2 * 2 ^ k) == 0) ≡ true
multiple_even q d k =
    let m = 2 * 2 ^ k in
    let power : 2 ^ (d + suc k) ≡ 2 ^ d * m =
      power_add d (suc k) ∙ ap (λ n. 2 ^ d * n) (pow-suc 2 k ∙ omega arith) in
    let all : q * (2 * 2 ^ (d + suc k)) + 2 ^ (d + suc k) ≡ (q * 2 + 1) * 2 ^ d * m =
      rw power (grind arith) in
    let none_left : (q * (2 * 2 ^ (d + suc k)) + 2 ^ (d + suc k)) % m ≡ 0 =
      rw all (mul-mod_left ((q * 2 + 1) * 2 ^ d) m) in
    (==_iff _ 0).1 none_left

-- What a worker of an odd multiple of `2 ^ step` has merged when it ends reaches to the end of the
-- workers, or as far as the worker that joins it needs.
pub last_reach :
    (n q w step last u : ℕ)
    → w ≡ q * (2 * 2 ^ step) + 2 ^ step
    → (has_next w last ≡ false) ⊎ (n ≤ next_worker w last)
    → u < w + 2 ^ step
    → u < n
    → u < w + 2 ^ last
last_reach n q w step last u e h below lt = elim (Bool-cases (leb step last)) [
  | inl enough ↦
      let more : 2 ^ step ≤ 2 ^ last = pow-le-pow_right (omega arith) (leb→le step last enough) in
      omega (arith, below, more)
  | inr short ↦
      let d = step - suc last in
      let longer : step ≡ d + suc last = ground arith in
      let even = multiple_even q d last in
      let place : w ≡ q * (2 * 2 ^ (d + suc last)) + 2 ^ (d + suc last) =
        subst (λ k. w ≡ q * (2 * 2 ^ k) + 2 ^ k) longer e in
      let joins : has_next w last ≡ true = rw place even in
      let sum = (next_worker_lem w last joins).0 in
      elim h [ inl none_next ↦ cc | inr past ↦ omega (arith, sum, past, lt) ]
]
