-- ===== src/Fzy/Search/Ranges.antt =====
-- The ranges of workers whose lists one worker of choices_search in examples/fzy.c merges.
use native.Mathlib.Nat.{mul-le-mul_right}
use clang_witness_inject.Prelude.{
  ℕ, ◌+◌, ◌-◌, ◌*◌, ◌^◌, ◌<◌, ◌≤◌, ◌≡◌, sym, ◌∙◌, subst, leb, leb→le, arith, Bool-cases, inl, inr,
}
use clang_witness_inject.Fzy.Search.Partner.{power_add}

-- No multiple lies between two neighbours.
multiple_between : (m a b : ℕ) → a * m < b * m → ¬ (b * m < a * m + m)
multiple_between m a b h k = elim (Bool-cases (leb b a)) [
  | inl le ↦
      let below : b ≤ a = leb→le b a le in
      let bound : b * m ≤ a * m = mul-le-mul_right m below in omega (arith, bound, h)
  | inr lt ↦
      let above : a + 1 ≤ b = ground arith in
      let bound : (a + 1) * m ≤ b * m = mul-le-mul_right m above in
      let spread : (a + 1) * m ≡ a * m + m = grind arith in omega (arith, bound, spread, k)
]

-- Two ranges of workers that are merged do not overlap but when one holds the other.
pub ranges_nest :
    (w q step v q' step' : ℕ)
    → w ≡ q * (2 * 2 ^ step)
    → v ≡ q' * 2 ^ step'
    → w < v
    → v < w + 2 ^ step
    → ¬ (w + 2 ^ step < v + 2 ^ step')
ranges_nest w q step v q' step' e f a b c = elim (Bool-cases (leb step' step)) [
  | inl le ↦
      let d = step - step' in
      let longer : step ≡ d + step' = ground arith in
      let whole : 2 ^ step ≡ 2 ^ d * 2 ^ step' =
        subst (λ k. 2 ^ k ≡ 2 ^ d * 2 ^ step') (sym longer) (power_add d step') in
      let at : w + 2 ^ step ≡ (q * 2 + 1) * 2 ^ d * 2 ^ step' = rw (e, whole) (grind arith) in
      multiple_between (2 ^ step') q' ((q * 2 + 1) * 2 ^ d) (omega (arith, at, f, b))
        (omega (arith, at, f, c))
  | inr lt ↦
      let d = step' - step in
      let longer : step' ≡ d + step = ground arith in
      let whole : 2 ^ step' ≡ 2 ^ d * 2 ^ step =
        subst (λ k. 2 ^ k ≡ 2 ^ d * 2 ^ step) (sym longer) (power_add d step) in
      let at : v ≡ q' * 2 ^ d * 2 ^ step = rw (f, whole) (grind arith) in
      let here : w ≡ q * 2 * 2 ^ step = e ∙ grind arith in
      multiple_between (2 ^ step) (q * 2) (q' * 2 ^ d) (omega (arith, at, here, a))
        (omega (arith, at, here, b))
]
