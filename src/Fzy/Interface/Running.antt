-- ===== src/Fzy/Interface/Running.antt =====
-- The loop of the interface, for every sequence of events.
use clang_witness_inject.Prelude.{
  ℕ, ◌<◌, ◌≡◌, inl, inr, refl, Bool, true, false, Option, none, some, List, [], ◌∷◌, Text, length,
  All, ◌==◌, if◌then◌else◌, arith, lt→ltb, text_eq, Bool-cases, ◌>>=◌,
}
use clang_witness_inject.Fzy.Line.{strncpy}
use clang_witness_inject.Fzy.Line.Legal.{IsLine-end}
use clang_witness_inject.Fzy.Scores.{Scores}
use clang_witness_inject.Fzy.Choices.{Choices, choices_reset_search}
use clang_witness_inject.Fzy.Screen.{Options, Environment, State, draw}
use clang_witness_inject.Fzy.Interface.{update_search, update_state}
use clang_witness_inject.Fzy.Interface.{
  handle_input, after_key, run, Event, resized, key, tty_interface_init,
}
use clang_witness_inject.Fzy.Interface.Editing.{
  IsShort, HasShort, FindsShort, draw-IsEditing, update_state-IsEditing,
}
use clang_witness_inject.Fzy.Interface.{has_exited, after_pause, begin_with, first_search}
use clang_witness_inject.Fzy.Terminal.{Tty}
use clang_witness_inject.Fzy.Interface.Handled.{IsReading, Reads, handle_input-Reads}

module _ (sc : Scores) (options : Options) (env : Environment sc) (finds : FindsShort sc env) where
  abbrev Reading : State sc → Type 0
  Reading = IsReading sc options env finds

  abbrev Goes : Option (State sc) → Type 0
  Goes = Reads sc options env finds

  Goes-bind :
      (m : Option (State sc)) (f : State sc → Option (State sc))
      → Goes m
      → ((t : State sc) → Reading t → Goes (f t))
      → Goes (m >>= f)
  Goes-bind none f h k = absurd h
  Goes-bind (some t) f h k = k t h

  Goes-if : (b : Bool) (m k : Option (State sc)) → Goes m → Goes k → Goes (if b then m else k)
  Goes-if true m k h j = h
  Goes-if false m k h j = j

  draw-IsReading : (s : State sc) → Reading s → Reading (draw sc options env s)
  unfolding draw
  draw-IsReading s v = record {
    editing = draw-IsEditing sc options env finds v.editing;
    input_le = v.input_le;
  }

  update_state-input : (s : State sc) → (update_state sc options env s).input ≡ s.input
  unfolding update_state update_search draw
  update_state-input s = elim (Bool-cases (text_eq s.last_search s.search)) [
    | inl e ↦ rw e
    | inr e ↦ rw e
  ]

  update_state-IsReading : (s : State sc) → Reading s → Reading (update_state sc options env s)
  update_state-IsReading s v = record {
    editing = update_state-IsEditing sc options env finds v.editing;
    input_le = rw (update_state-input s) v.input_le;
  }

  after_pause-Goes : (s : State sc) → Reading s → Goes (after_pause sc options env s)
  unfolding after_pause
  after_pause-Goes s v =
      Goes-if s.ambiguous_key_pending _ _
        (Goes-bind (handle_input sc options env [] true s) _
          (handle_input-Reads sc options env finds [] true s v.editing)
          (λ t w. elim (Bool-cases (has_exited sc options env t)) [
            | inl e ↦ rw e w
            | inr e ↦ rw e (update_state-IsReading t w)
          ]))
        (update_state-IsReading s v)

  after_key-Goes :
      (c : ℕ) (more : Bool) (s : State sc) → Reading s → Goes (after_key sc options env c more s)
  unfolding after_key
  after_key-Goes c more s v =
      Goes-bind (handle_input sc options env (if c == 0 then [] else c ∷ []) false s) _
        (handle_input-Reads sc options env finds (if c == 0 then [] else c ∷ []) false s v.editing)
        (λ t w. Goes-if (has_exited sc options env t) _ _ w (
          Goes-if more _ _ (draw-IsReading t w)
            (after_pause-Goes (draw sc options env t) (draw-IsReading t w))))

  -- Where every line of the input is shorter than 4096 bytes, the loop goes through any sequence of
  -- keys and changes of the window: the searched text always has room for its terminator, the cursor
  -- stands in it, and at most six bytes of input wait for the rest of a key.
  run-Reads :
      (es : List Event) (s : State sc)
      → IsReading sc options env finds s
      → Reads sc options env finds (run sc options env es s)
  unfolding run
  run-Reads [] s v = v
  run-Reads (resized ∷ es) s v = run-Reads es (draw sc options env s) (draw-IsReading s v)
  run-Reads (key c more ∷ es) s v =
      Goes-bind (after_key sc options env c more s) _ (after_key-Goes c more s v)
        (λ t w. Goes-if (has_exited sc options env t) _ _ w (run-Reads es t w))

  begin_with-IsReading :
      (tty : Tty) (c : Choices sc) (search : Text)
      → All IsShort c.strings
      → All (HasShort sc) c.results
      → length search < 4096
      → Reading (begin_with sc options env tty c search)
  unfolding begin_with update_search choices_reset_search
  begin_with-IsReading tty c search h k l = record {
    editing = record {
      line = IsLine-end search (omega (arith, l));
      lines_short = h;
      results_short = finds c.strings search h;
    };
    input_le = omega arith;
  }

  first_search-Goes :
      (tty : Tty) (c : Choices sc) (o : Option Text)
      → All IsShort c.strings
      → All (HasShort sc) c.results
      → ((text : Text) → o ≡ some text → length text < 4096)
      → Goes (
          first_search sc options env o >>= λ search. some (begin_with sc options env tty c search))
  unfolding first_search strncpy
  first_search-Goes tty c none h k l = begin_with-IsReading tty c [] h k (omega arith)
  first_search-Goes tty c (some text) h k l =
      rw (lt→ltb _ _ (l text refl)) (begin_with-IsReading tty c text h k (l text refl))

  -- With no first search, or with one shorter than 4096 bytes, the interface starts such a loop.
  tty_interface_init-Reads :
      (tty : Tty) (c : Choices sc)
      → All IsShort c.strings
      → All (HasShort sc) c.results
      → ((text : Text) → options.init_search ≡ some text → length text < 4096)
      → Reads sc options env finds (tty_interface_init sc options env tty c)
  unfolding tty_interface_init
  tty_interface_init-Reads tty c h k l = first_search-Goes tty c options.init_search h k l

  -- From its start on, through any sequence of keys and changes of the window, the interface always
  -- goes on in a state where the cursor stands in the line, the line leaves room for its terminator,
  -- and at most six bytes wait for the rest of a key, where the lines that are searched and the first
  -- search are shorter than 4096 bytes.
  pub session-Reads :
      (tty : Tty) (c : Choices sc) (es : List Event)
      → All IsShort c.strings
      → All (HasShort sc) c.results
      → ((text : Text) → options.init_search ≡ some text → length text < 4096)
      → Reads sc options env finds (
          tty_interface_init sc options env tty c >>= λ s.
          run sc options env es (draw sc options env s))
  session-Reads tty c es h k l =
      Goes-bind (tty_interface_init sc options env tty c)
        (λ s. run sc options env es (draw sc options env s)) (tty_interface_init-Reads tty c h k l)
        (λ s v. run-Reads es (draw sc options env s) (draw-IsReading s v))
