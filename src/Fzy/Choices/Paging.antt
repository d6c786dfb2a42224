-- ===== src/Fzy/Choices/Paging.antt =====
-- The selection of a result, one result or a page at a time.
use clang_witness_inject.Prelude.{
  ℕ, ◌+◌, ◌-◌, ◌%◌, ◌<◌, ◌≡◌, ap, if◌then◌else◌, ◌==◌, arith, ◌∙◌, Bool-cases, ==_iff, inl, inr,
}
use native.Mathlib.Nat.{mod-eq_of_lt, mod-eq-sub-mod}
use clang_witness_inject.Fzy.Scores.{Scores}
use clang_witness_inject.Fzy.Choices.{Choices, available, choices_prev, choices_next}

next_index : (i n : ℕ) → i < n → (i + 1) % n ≡ (if i + 1 == n then 0 else i + 1)
next_index i n h = elim (Bool-cases (i + 1 == n)) [
  | inl last ↦
      let whole : i + 1 ≡ n = (==_iff (i + 1) n).0 last in
      let none_left : n - n ≡ 0 = omega arith in
      rw last (
        ap (λ (m : ℕ). m % n) whole
        ∙ mod-eq-sub-mod {n = n} {m = n} (omega arith)
        ∙ ap (λ (m : ℕ). m % n) none_left
        ∙ mod-eq_of_lt {n = 0} {m = n} (omega (arith, h)))
  | inr other ↦ rw other (mod-eq_of_lt (ground arith))
]

prev_index : (i n : ℕ) → i < n → (i + n - 1) % n ≡ (if i == 0 then n - 1 else i - 1)
prev_index i n h = elim (Bool-cases (i == 0)) [
  | inl first ↦ rw first (mod-eq_of_lt (ground arith) ∙ ground arith)
  | inr other ↦
      let below : i + n - 1 - n ≡ i - 1 = ground arith in
      rw other (
        mod-eq-sub-mod {n = i + n - 1} {m = n} (ground arith)
        ∙ ap (λ (m : ℕ). m % n) below
        ∙ mod-eq_of_lt {n = i - 1} {m = n} (omega (arith, h)))
]

module _ (sc : Scores) where
  abbrev select : Choices sc → ℕ → Choices sc
  select c i = record c { selection = i }

  pub choices_next_lem :
      (c : Choices sc)
      → c.selection < available sc c
      → choices_next sc c
        ≡ select c (if c.selection + 1 == available sc c then 0 else c.selection + 1)
  unfolding choices_next
  choices_next_lem c h = rw (next_index c.selection (available sc c) h) (ground arith)

  pub choices_prev_lem :
      (c : Choices sc)
      → c.selection < available sc c
      → choices_prev sc c
        ≡ select c (if c.selection == 0 then available sc c - 1 else c.selection - 1)
  unfolding choices_prev
  choices_prev_lem c h = rw (prev_index c.selection (available sc c) h) (ground arith)

  -- The key for the result before undoes the key for the next one, also at both ends of the list.
  choices_prev-next :
      (c : Choices sc) → c.selection < available sc c → choices_prev sc (choices_next sc c) ≡ c
  choices_prev-next c h =
      let i = c.selection in
      let n = available sc c in
      let next : ℕ = if i + 1 == n then 0 else i + 1 in
      let again : (if next == 0 then n - 1 else next - 1) ≡ i = ground arith in
      ap (choices_prev sc) (choices_next_lem c h)
      ∙ choices_prev_lem (select c next) (ground arith)
      ∙ ap (select c) again
