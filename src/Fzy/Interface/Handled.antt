-- ===== src/Fzy/Interface/Handled.antt =====
-- Input of any bytes leaves the line legal and keeps at most six bytes of it for the next key.
use clang_witness_inject.Prelude.{
  ℕ, ◌+◌, ◌≤◌, ◌≡◌, ◌⊎◌, inl, inr, refl, subst, Bool, true, false, Option, none, some, List, [],
  ◌∷◌, ◌++◌, Text, length, All, ltb, if◌then◌else◌, arith, ltb→lt, text_eq, Bool-cases,
  Option-cases,
}
use clang_witness_inject.Fzy.Chars.{isprint_unicode, take, drop}
use clang_witness_inject.Fzy.Line.Legal.{IsLine-insert}
use clang_witness_inject.Fzy.Scores.{Scores}
use clang_witness_inject.Fzy.Screen.{Options, Environment, State}
use clang_witness_inject.Fzy.Interface.{append_search, perform}
use clang_witness_inject.Fzy.Interface.Keys.{Action}
use clang_witness_inject.Fzy.Interface.{append_input, answer, run_action, handle_input}
use clang_witness_inject.Fzy.Interface.Keys.{Binding, keybindings, begins, Found, find_keybinding}
use clang_witness_inject.Fzy.Interface.Editing.{FindsShort, IsEditing-line}
use clang_witness_inject.Fzy.Interface.Safe.{Editing, Ends, perform-Ends}

-- A string that begins a key is no longer than the key.
begins-le : (s k : Text) → begins s k ≡ true → length s ≤ length k
unfolding begins
begins-le [] k h = omega arith
begins-le (c ∷ s) [] h = cc
begins-le (c ∷ s) (b ∷ k) h = ground (arith, begins-le s k)

abbrev IsKeys : List Binding → Type 0
IsKeys = All (λ b. length b.0 ≤ 6)

-- What begins a key of at most six bytes has at most six.
find_keybinding-le :
    (input : Text) (found : Found) (keys : List Binding)
    → IsKeys keys
    → (find_keybinding input found keys).in_middle ≡ true
    → (found.in_middle ≡ true) ⊎ (length input ≤ 6)
unfolding find_keybinding
find_keybinding-le input found [] h e = inl e
find_keybinding-le input found ((k, action) ∷ keys) h e =
    let next : Found =
      if text_eq input k
      then record found { keybinding = some action }
      else if begins input k
      then record found { in_middle = true }
      else found in
    let one : (next.in_middle ≡ true) → (found.in_middle ≡ true) ⊎ (length input ≤ 6) = λ m.
      elim (Bool-cases (text_eq input k)) [
        | inl whole ↦ inl (rw whole at m)
        | inr other ↦ elim (Bool-cases (begins input k)) [
          | inl part ↦ inr (omega (arith, begins-le input k part, h.0))
          | inr apart ↦ inl (rw (other, apart) at m)
        ]
      ] in
    elim (find_keybinding-le input next keys h.1 e) [ inl m ↦ one m | inr short ↦ inr short ]

module _ (sc : Scores) (options : Options) (env : Environment sc) (finds : FindsShort sc env) where
  abbrev Stays : State sc → Type 0
  Stays = Editing sc options env finds

  append_search-IsEditing :
      (ch : ℕ) (s : State sc) → Stays s → Stays (append_search sc options env ch s)
  unfolding append_search
  append_search-IsEditing ch s v = elim (Bool-cases (ltb (length s.search) 4096)) [
    | inr e ↦ rw e v
    | inl e ↦ rw e (
        IsEditing-line sc options env finds (take s.cursor s.search ++ ch ∷ drop s.cursor s.search)
          (s.cursor + 1) (IsLine-insert s.search s.cursor ch (ltb→lt _ _ e) v.line) v)
  ]

  append_input-IsEditing :
      (input : Text) (s : State sc) → Stays s → Stays (append_input sc options env input s)
  unfolding append_input
  append_input-IsEditing [] s v = v
  append_input-IsEditing (c ∷ input) s v = elim (Bool-cases (isprint_unicode c)) [
    | inl e ↦ rw e (
        append_input-IsEditing input (append_search sc options env c s)
          (append_search-IsEditing c s v))
    | inr e ↦ rw e (append_input-IsEditing input s v)
  ]

  -- And the input that is kept is short.
  pub record IsReading (s : State sc) : Type 0 where
    pub editing : Stays s
    pub input_le : length s.input ≤ 6

  -- The result is a state, and it is one of reading.
  abbrev pub Reads : Option (State sc) → Type 0
  Reads none = ⊥
  Reads (some t) = IsReading t

  run_action-Reads : (a : Action) (s : State sc) → Stays s → Reads (run_action sc options env a s)
  unfolding run_action
  run_action-Reads a s v = elim (Option-cases (perform sc options env a s)) [
    | inl e ↦ absurd (subst (Ends sc options env finds) e (perform-Ends sc options env finds a s v))
    | inr (t, e) ↦
        let w = subst (Ends sc options env finds) e (perform-Ends sc options env finds a s v) in
        rw e (record {
          editing = record {
            line = w.line;
            lines_short = w.lines_short;
            results_short = w.results_short;
          };
          input_le = omega arith;
        })
  ]

  answer-Reads :
      (o : Option Action) (in_middle ambiguous : Bool) (s : State sc)
      → (in_middle ≡ true → length s.input ≤ 6)
      → Stays s
      → Reads (answer sc options env o in_middle ambiguous s)
  unfolding answer
  answer-Reads (some a) false ambiguous s h v = run_action-Reads a s v
  answer-Reads (some a) true true s h v = run_action-Reads a s v
  answer-Reads (some a) true false s h v = record {
    editing = record {
      line = v.line;
      lines_short = v.lines_short;
      results_short = v.results_short;
    };
    input_le = h refl;
  }
  answer-Reads none true ambiguous s h v = record { editing = v; input_le = h refl }
  answer-Reads none false ambiguous s h v =
      let w = append_input-IsEditing s.input s v in
      record {
        editing = record {
          line = w.line;
          lines_short = w.lines_short;
          results_short = w.results_short;
        };
        input_le = omega arith;
      }

  keybindings-IsKeys : IsKeys keybindings
  keybindings-IsKeys = omega arith

  pub handle_input-Reads :
      (keys : Text) (ambiguous : Bool) (s : State sc)
      → Stays s
      → Reads (handle_input sc options env keys ambiguous s)
  unfolding handle_input
  handle_input-Reads keys ambiguous s v =
      let input = s.input ++ keys in
      let none_found : Found = record { keybinding = none; in_middle = false } in
      let found = find_keybinding input none_found keybindings in
      answer-Reads found.keybinding found.in_middle ambiguous
        (record s { ambiguous_key_pending = false; input = input })
        (λ e. elim (find_keybinding-le input none_found keybindings keybindings-IsKeys e) [
          | inl m ↦ cc
          | inr short ↦ short
        ])
        (record { line = v.line; lines_short = v.lines_short; results_short = v.results_short })
