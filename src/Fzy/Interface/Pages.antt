-- ===== src/Fzy/Interface/Pages.antt =====
-- The keys that move the selection by a page.
use clang_witness_inject.Prelude.{
  ℕ, zero, suc, ◌+◌, ◌-◌, ◌%◌, ◌^◌, ◌<◌, ◌≡◌, ap, if◌then◌else◌, ltb, ◌==◌, arith, ◌∙◌, Bool-cases,
  inl, inr,
}
use clang_witness_inject.Fzy.Scores.{Scores}
use clang_witness_inject.Fzy.Choices.{Choices, available}
use clang_witness_inject.Fzy.Choices.Paging.{choices_prev_lem, choices_next_lem}
use clang_witness_inject.Fzy.Screen.{Options, Environment}
use clang_witness_inject.Fzy.Interface.{pageup, pagedown}

module _ (sc : Scores) (options : Options) (env : Environment sc) where
  -- `n` rounds towards the first result move the selection by `n`, and stop there.
  pageup_lem :
      (n : ℕ) (c : Choices sc)
      → c.selection < available sc c
      → pageup sc options env n c ≡ record c { selection = c.selection - n }
  unfolding pageup
  pageup_lem zero c h = ap (λ (i : ℕ). record c { selection = i }) (omega arith)
  pageup_lem (suc n) c h = elim (Bool-cases (ltb 0 c.selection)) [
    | inl more ↦
        let up : (if c.selection == 0 then available sc c - 1 else c.selection - 1)
            ≡ c.selection - 1 =
          ground arith in
        rw more (
          ap (pageup sc options env n)
            (choices_prev_lem sc c h ∙ ap (λ (i : ℕ). record c { selection = i }) up)
          ∙ pageup_lem n (record c { selection = c.selection - 1 }) (omega (arith, h))
          ∙ ap (λ (i : ℕ). record c { selection = i }) (omega arith))
    | inr first ↦ rw first (ap (λ (i : ℕ). record c { selection = i }) (ground arith))
  ]

  -- `n` rounds towards the last result move the selection by `n`, and stop there.
  pub pagedown_lem :
      (n : ℕ) (c : Choices sc)
      → c.selection < available sc c
      → available sc c < 2 ^ 64
      → pagedown sc options env n c ≡ record c {
        selection =
            if ltb (c.selection + n) (available sc c) then c.selection + n else available sc c - 1;
      }
  unfolding pagedown
  pagedown_lem zero c h k = ap (λ (i : ℕ). record c { selection = i }) (ground arith)
  pagedown_lem (suc n) c h k =
      elim (Bool-cases (ltb c.selection ((available sc c + 2 ^ 64 - 1) % 2 ^ 64))) [
        | inl more ↦
            let down : (if c.selection + 1 == available sc c then 0 else c.selection + 1)
                ≡ c.selection + 1 =
              ground arith in
            rw more (
              ap (pagedown sc options env n)
                (choices_next_lem sc c h ∙ ap (λ (i : ℕ). record c { selection = i }) down)
              ∙ pagedown_lem n (record c { selection = c.selection + 1 }) (ground arith) k
              ∙ ap (λ (i : ℕ). record c { selection = i }) (ground arith))
        | inr last ↦ rw last (ap (λ (i : ℕ). record c { selection = i }) (ground arith))
      ]
