-- ===== src/Fzy/Interface/Editing.antt =====
-- What holds of the line, the cursor and the keys read so far, whatever the user does.
use clang_witness_inject.Prelude.{
  ℕ, zero, suc, ◌+◌, ◌-◌, ◌%◌, ◌^◌, ◌<◌, ◌≡◌, inl, inr, refl, ap, ◌∙◌, List, Text, length, All, ltb,
  ◌==◌, text_eq, Bool-cases,
}
use clang_witness_inject.Fzy.Line.Legal.{IsLine}
use clang_witness_inject.Fzy.Scores.{Scores}
use clang_witness_inject.Fzy.Choices.{
  Choice, ScoredResult, Choices, available, choices_reset_search, choices_prev, choices_next,
}
use clang_witness_inject.Fzy.Screen.{Options, Environment, State, draw}
use clang_witness_inject.Fzy.Interface.{update_search, update_state, pageup, pagedown}

abbrev pub IsShort : Choice → Type 0
IsShort c = length c.str < 4096

abbrev pub HasShort : (sc : Scores) → ScoredResult sc → Type 0
HasShort sc r = length r.str.str < 4096

-- What a search finds is among the lines that it searches.
abbrev pub FindsShort : (sc : Scores) → Environment sc → Type 0
FindsShort sc env =
    (lines : List Choice) (text : Text)
    → All IsShort lines
    → All (HasShort sc) (env.search lines text)

module _ (sc : Scores) (options : Options) (env : Environment sc) (finds : FindsShort sc env) where
  pub record IsEditing (s : State sc) : Type 0 where
    pub line : IsLine s.search s.cursor
    pub lines_short : All IsShort s.choices.strings
    pub results_short : All (HasShort sc) s.choices.results

  -- Drawing changes only the terminal.
  pub draw-IsEditing : {s : State sc} → IsEditing s → IsEditing (draw sc options env s)
  unfolding draw
  draw-IsEditing v = record {
    line = v.line;
    lines_short = v.lines_short;
    results_short = v.results_short;
  }

  update_search-IsEditing :
      {s : State sc} → IsEditing s → IsEditing (update_search sc options env s)
  unfolding update_search choices_reset_search
  update_search-IsEditing {s} v = record {
    line = v.line;
    lines_short = v.lines_short;
    results_short = finds s.choices.strings s.search v.lines_short;
  }

  pub update_state-IsEditing :
      {s : State sc} → IsEditing s → IsEditing (update_state sc options env s)
  unfolding update_state
  update_state-IsEditing {s} v = elim (Bool-cases (text_eq s.last_search s.search)) [
    | inl same ↦ rw same v
    | inr other ↦ rw other (draw-IsEditing (update_search-IsEditing v))
  ]

  -- Another selection.
  IsEditing-select :
      {s : State sc} (c : Choices sc)
      → c.strings ≡ s.choices.strings
      → c.results ≡ s.choices.results
      → IsEditing s
      → IsEditing (record s { choices = c })
  IsEditing-select c e f v = record {
    line = v.line;
    lines_short = rw e v.lines_short;
    results_short = rw f v.results_short;
  }

  pub IsEditing-line :
      {s : State sc} (text : Text) (c : ℕ)
      → IsLine text c
      → IsEditing s
      → IsEditing (record s { search = text; cursor = c })
  IsEditing-line text c l v = record {
    line = l;
    lines_short = v.lines_short;
    results_short = v.results_short;
  }

  pub IsEditing-step :
      (s : State sc) (f : Choices sc → Choices sc)
      → ((c : Choices sc) → (i : ℕ) × (f c ≡ record c { selection = i }))
      → IsEditing s
      → IsEditing (record s { choices = f s.choices })
  IsEditing-step s f only v =
      let (i, e) = only s.choices in
      rw e (IsEditing-select (record s.choices { selection = i }) refl refl v)

  pub selects_prev : (c : Choices sc) → (i : ℕ) × (choices_prev sc c ≡ record c { selection = i })
  unfolding choices_prev
  selects_prev c = elim (Bool-cases (available sc c == 0)) [
    | inl e ↦ (c.selection, rw e)
    | inr e ↦ ((c.selection + available sc c - 1) % available sc c, rw e)
  ]

  pub selects_next : (c : Choices sc) → (i : ℕ) × (choices_next sc c ≡ record c { selection = i })
  unfolding choices_next
  selects_next c = elim (Bool-cases (available sc c == 0)) [
    | inl e ↦ (c.selection, rw e)
    | inr e ↦ ((c.selection + 1) % available sc c, rw e)
  ]

  pub selects_pageup :
      (n : ℕ) (c : Choices sc) → (i : ℕ) × (pageup sc options env n c ≡ record c { selection = i })
  unfolding pageup
  selects_pageup zero c = (c.selection, refl)
  selects_pageup (suc n) c = elim (Bool-cases (ltb 0 c.selection)) [
    | inl e ↦
        let (i, p) = selects_prev c in
        let (j, q) = selects_pageup n (choices_prev sc c) in
        (j, rw e (q ∙ ap (λ (d : Choices sc). record d { selection = j }) p))
    | inr e ↦ (c.selection, rw e)
  ]

  pub selects_pagedown :
      (n : ℕ) (c : Choices sc)
      → (i : ℕ) × (pagedown sc options env n c ≡ record c { selection = i })
  unfolding pagedown
  selects_pagedown zero c = (c.selection, refl)
  selects_pagedown (suc n) c =
      elim (Bool-cases (ltb c.selection ((available sc c + 2 ^ 64 - 1) % 2 ^ 64))) [
        | inl e ↦
            let (i, p) = selects_next c in
            let (j, q) = selects_pagedown n (choices_next sc c) in
            (j, rw e (q ∙ ap (λ (d : Choices sc). record d { selection = j }) p))
        | inr e ↦ (c.selection, rw e)
      ]
