-- ===== src/Fzy/Interface/Safe.antt =====
-- What each key does leaves the line legal, and never a string without terminator.
use clang_witness_inject.Prelude.{
  ℕ, ◌+◌, ◌<◌, ◌≡◌, inl, inr, refl, ap, not, Option, none, some, Text, length, All, ltb, ◌==◌,
  arith, lt→ltb, ltb→lt, Bool-cases, Option-cases,
}
use clang_witness_inject.Fzy.Chars.{is_space, drop, cut}
use clang_witness_inject.Fzy.Line.{back, back_while, continuation, strncpy}
use clang_witness_inject.Fzy.Line.Steps.{back-lt, back_while-le}
use clang_witness_inject.Fzy.Line.Legal.{IsLine-cut, IsLine-at, IsLine-forward, IsLine-end}
use clang_witness_inject.Fzy.Scores.{Scores}
use clang_witness_inject.Fzy.Choices.{
  Choices, choices_get, choices_prev, choices_next, nth, nth-All, string_of,
}
use clang_witness_inject.Fzy.Screen.{Options, Environment, State}
use clang_witness_inject.Fzy.Interface.{
  update_state, action_emit, action_del_char, action_del_word, action_del_all, action_prev,
  action_next, action_left, action_right, action_beginning, action_end, pageup, pagedown,
  action_pageup, action_pagedown, action_autocomplete, action_exit, perform,
}
use clang_witness_inject.Fzy.Interface.Keys.{Action}
use clang_witness_inject.Fzy.Interface.{copy_selection}
use clang_witness_inject.Fzy.Interface.Editing.{
  HasShort, FindsShort, IsEditing, IsEditing-line, IsEditing-step, update_state-IsEditing,
  selects_prev, selects_next, selects_pageup, selects_pagedown,
}

module _ (sc : Scores) (options : Options) (env : Environment sc) (finds : FindsShort sc env) where
  abbrev pub Editing : State sc → Type 0
  Editing = IsEditing sc options env finds

  -- The result is a state, and it is one of editing.
  abbrev pub Ends : Option (State sc) → Type 0
  Ends none = ⊥
  Ends (some t) = Editing t

  action_del_word-IsEditing :
      {s : State sc} → Editing s → Editing (action_del_word sc options env s)
  unfolding action_del_word
  action_del_word-IsEditing {s} v =
      let spaces = back_while is_space s.search s.cursor in
      let c = back_while (λ b. not (is_space b)) s.search spaces in
      IsEditing-line sc options env finds (cut s.search c s.cursor) c
        (IsLine-cut s.search c s.cursor
          (omega (
            arith,
            back_while-le is_space s.search s.cursor,
            back_while-le (λ b. not (is_space b)) s.search spaces,
          ))
          v.line)
        v

  action_del_char-IsEditing :
      {s : State sc} → Editing s → Editing (action_del_char sc options env s)
  unfolding action_del_char
  action_del_char-IsEditing {s} v = elim (Bool-cases (s.cursor == 0)) [
    | inl e ↦ rw e v
    | inr e ↦
        let c = back s.search s.cursor in
        rw e (
          IsEditing-line sc options env finds (cut s.search c s.cursor) c
            (IsLine-cut s.search c s.cursor (ground (arith, back-lt s.search s.cursor)) v.line) v)
  ]

  action_left-IsEditing : {s : State sc} → Editing s → Editing (action_left sc options env s)
  unfolding action_left
  action_left-IsEditing {s} v = elim (Bool-cases (ltb 0 s.cursor)) [
    | inr e ↦ rw e v
    | inl e ↦
        let c = back s.search s.cursor in
        rw e (
          IsEditing-line sc options env finds s.search c
            (IsLine-at s.search c s.cursor (ground (arith, back-lt s.search s.cursor)) v.line) v)
  ]

  action_right-IsEditing : {s : State sc} → Editing s → Editing (action_right sc options env s)
  unfolding action_right
  action_right-IsEditing {s} v = elim (Bool-cases (ltb s.cursor (length s.search))) [
    | inr e ↦ rw e v
    | inl e ↦ rw e (
        IsEditing-line sc options env finds s.search
          (s.cursor + 1 + continuation (drop (s.cursor + 1) s.search))
          (IsLine-forward s.search s.cursor (ltb→lt _ _ e) v.line.search_le) v)
  ]

  copy_selection-Ends :
      (s : State sc) (o : Option Text)
      → Editing s
      → ((t : Text) → o ≡ some t → length t < 4096)
      → Ends (copy_selection sc options env s o)
  unfolding copy_selection strncpy
  copy_selection-Ends s none v h = v
  copy_selection-Ends s (some t) v h =
      rw (lt→ltb _ _ (h t refl)) (
        IsEditing-line sc options env finds t (length t) (IsLine-end t (omega (arith, h t refl))) v)

  choices_get-short :
      (c : Choices sc) (n : ℕ) (t : Text)
      → All (HasShort sc) c.results
      → choices_get sc c n ≡ some t
      → length t < 4096
  unfolding choices_get
  choices_get-short c n t h e = elim (Option-cases (nth sc c.results n)) [
    | inl q ↦ cc (rw (q, string_of) at e)
    | inr (r, q) ↦
        let same : r.str.str ≡ t = cc (rw (ap (string_of sc) q) at e) in
        rw (← same) (nth-All sc (HasShort sc) c.results n h q)
  ]

  pub perform-Ends : (a : Action) (s : State sc) → Editing s → Ends (perform sc options env a s)
  unfolding perform action_emit action_del_all action_prev action_next action_beginning action_end
      action_pageup action_pagedown action_autocomplete action_exit
  perform-Ends Action.action_exit s v = record {
    line = v.line;
    lines_short = v.lines_short;
    results_short = v.results_short;
  }
  perform-Ends Action.action_del_char s v = action_del_char-IsEditing v
  perform-Ends Action.action_del_word s v = action_del_word-IsEditing v
  perform-Ends Action.action_del_all s v =
      IsEditing-line sc options env finds (cut s.search 0 s.cursor) 0
        (IsLine-cut s.search 0 s.cursor (omega arith) v.line) v
  perform-Ends Action.action_autocomplete s v =
      let u = update_state sc options env s in
      let w = update_state-IsEditing sc options env finds v in
      copy_selection-Ends u (choices_get sc u.choices u.choices.selection) w
        (λ t e. choices_get-short u.choices u.choices.selection t w.results_short e)
  perform-Ends Action.action_emit s v =
      let w = update_state-IsEditing sc options env finds v in
      record { line = w.line; lines_short = w.lines_short; results_short = w.results_short }
  perform-Ends Action.action_prev s v =
      IsEditing-step sc options env finds (update_state sc options env s) (choices_prev sc)
        (selects_prev sc options env finds) (update_state-IsEditing sc options env finds v)
  perform-Ends Action.action_next s v =
      IsEditing-step sc options env finds (update_state sc options env s) (choices_next sc)
        (selects_next sc options env finds) (update_state-IsEditing sc options env finds v)
  perform-Ends Action.action_beginning s v =
      IsEditing-line sc options env finds s.search 0
        (IsLine-at s.search 0 s.cursor (omega arith) v.line) v
  perform-Ends Action.action_end s v =
      IsEditing-line sc options env finds s.search (length s.search)
        (IsLine-end s.search v.line.search_le) v
  perform-Ends Action.action_left s v = action_left-IsEditing v
  perform-Ends Action.action_right s v = action_right-IsEditing v
  perform-Ends Action.action_pageup s v =
      IsEditing-step sc options env finds (update_state sc options env s)
        (pageup sc options env options.num_lines)
        (selects_pageup sc options env finds options.num_lines)
        (update_state-IsEditing sc options env finds v)
  perform-Ends Action.action_pagedown s v =
      IsEditing-step sc options env finds (update_state sc options env s)
        (pagedown sc options env options.num_lines)
        (selects_pagedown sc options env finds options.num_lines)
        (update_state-IsEditing sc options env finds v)
  perform-Ends Action.action_ignore s v = v
