-- ===== src/Fzy/Interface.antt =====
-- tty_interface.c in examples/fzy.c: the keys that the user hits, and what they do.
pub mod Keys
pub mod RoundTrips
pub mod Editing
pub mod Safe
pub mod Handled
pub mod Running
pub mod Pages
use clang_witness_inject.Prelude.{
  ℕ, zero, suc, ◌+◌, ◌-◌, Bool, true, false, ◌||◌, ◌^◌, ◌%◌, not, Option, none, some, List, [], ◌∷◌,
  ◌++◌, Text, text_eq, length, ltb, ◌==◌, if◌then◌else◌, ◌>>=◌,
}
use clang_witness_inject.Fzy.Chars.{is_space, isprint_unicode, take, drop, cut}
use clang_witness_inject.Fzy.Scores.{Scores}
use clang_witness_inject.Fzy.Choices.{
  Choices, available, choices_get, choices_prev, choices_reset_search, choices_next,
}
use clang_witness_inject.Fzy.Terminal.{Tty}
use clang_witness_inject.Fzy.Interface.Keys.{Action, keybindings, find_keybinding}
use clang_witness_inject.Fzy.Line.{back, back_while, continuation, strncpy}
use clang_witness_inject.Fzy.Screen.{Options, Environment, State, write, clear, draw}

-- What `tty_interface_run` waits for: a signal that the window has a new size, or a byte, with
-- whether `tty_input_ready` tells of a further byte behind it.
pub data Event : Type 0 where
  resized : Event
  key : (c : ℕ) (more : Bool) → Event

module _ (sc : Scores) (options : Options) (env : Environment sc) where
  open options use {num_lines, init_search}

  -- The call of `choices_search` resets the search and leaves what its threads find.
  unfoldable pub update_search : State sc → State sc
  update_search s = record s {
    choices = record (choices_reset_search sc s.choices) {
      results = env.search s.choices.strings s.search;
    };
    last_search = s.search;
  }

  unfoldable pub update_state : State sc → State sc
  update_state s =
      if text_eq s.last_search s.search then s else draw sc options env (update_search s)

  unfoldable pub action_emit : State sc → State sc
  action_emit s =
      let u = update_state s in
      let line : Text = elim (choices_get sc u.choices u.choices.selection) [
        | none ↦ u.search
        | some selection ↦ selection
      ] in
      record (write sc options env (clear sc options env) u) {
        emitted = u.emitted ++ line ++ 10 ∷ [];
        exit = some 0;
      }

  unfoldable pub action_del_char : State sc → State sc
  action_del_char s =
      let c = back s.search s.cursor in
      if s.cursor == 0 then s else record s { search = cut s.search c s.cursor; cursor = c }

  unfoldable pub action_del_word : State sc → State sc
  action_del_word s =
      let spaces = back_while is_space s.search s.cursor in
      let c = back_while (λ b. not (is_space b)) s.search spaces in
      record s { search = cut s.search c s.cursor; cursor = c }

  unfoldable pub action_del_all : State sc → State sc
  action_del_all s = record s { search = cut s.search 0 s.cursor; cursor = 0 }

  unfoldable pub action_prev : State sc → State sc
  action_prev s = let u = update_state s in record u { choices = choices_prev sc u.choices }

  unfoldable pub action_next : State sc → State sc
  action_next s = let u = update_state s in record u { choices = choices_next sc u.choices }

  unfoldable pub action_left : State sc → State sc
  action_left s = if ltb 0 s.cursor then record s { cursor = back s.search s.cursor } else s

  unfoldable pub action_right : State sc → State sc
  action_right s =
      if ltb s.cursor (length s.search)
      then record s { cursor = s.cursor + 1 + continuation (drop (s.cursor + 1) s.search) }
      else s

  unfoldable pub action_beginning : State sc → State sc
  action_beginning s = record s { cursor = 0 }

  unfoldable pub action_end : State sc → State sc
  action_end s = record s { cursor = length s.search }

  -- The loops of `action_pageup` and `action_pagedown`, with `n` rounds left. The subtraction in the
  -- test wraps.
  unfoldable pub pageup : ℕ → Choices sc → Choices sc
  pageup zero c = c
  pageup (suc n) c =
      let rest = pageup n (choices_prev sc c) in if ltb 0 c.selection then rest else c

  unfoldable pub pagedown : ℕ → Choices sc → Choices sc
  pagedown zero c = c
  pagedown (suc n) c =
      let rest = pagedown n (choices_next sc c) in
      if ltb c.selection ((available sc c + 2 ^ 64 - 1) % 2 ^ 64) then rest else c

  unfoldable pub action_pageup : State sc → State sc
  action_pageup s = let u = update_state s in record u { choices = pageup num_lines u.choices }

  unfoldable pub action_pagedown : State sc → State sc
  action_pagedown s = let u = update_state s in record u { choices = pagedown num_lines u.choices }

  unfoldable pub copy_selection : State sc → Option Text → Option (State sc)
  copy_selection s none = some s
  copy_selection s (some selection) =
      strncpy selection >>= λ text. some (record s { search = text; cursor = length text })

  unfoldable pub action_autocomplete : State sc → Option (State sc)
  action_autocomplete s =
      let u = update_state s in copy_selection u (choices_get sc u.choices u.choices.selection)

  unfoldable pub action_exit : State sc → State sc
  action_exit s = record (write sc options env (clear sc options env) s) { exit = some 1 }

  unfoldable pub append_search : ℕ → State sc → State sc
  append_search ch s =
      if ltb (length s.search) 4096
      then record s {
        search = take s.cursor s.search ++ ch ∷ drop s.cursor s.search;
        cursor = s.cursor + 1;
      }
      else s

  -- The call of the function that a key is bound to. `none` means that `search` has no terminator.
  unfoldable pub perform : Action → State sc → Option (State sc)
  perform Action.action_exit s = some (action_exit s)
  perform Action.action_del_char s = some (action_del_char s)
  perform Action.action_del_word s = some (action_del_word s)
  perform Action.action_del_all s = some (action_del_all s)
  perform Action.action_autocomplete s = action_autocomplete s
  perform Action.action_emit s = some (action_emit s)
  perform Action.action_prev s = some (action_prev s)
  perform Action.action_next s = some (action_next s)
  perform Action.action_beginning s = some (action_beginning s)
  perform Action.action_end s = some (action_end s)
  perform Action.action_left s = some (action_left s)
  perform Action.action_right s = some (action_right s)
  perform Action.action_pageup s = some (action_pageup s)
  perform Action.action_pagedown s = some (action_pagedown s)
  perform Action.action_ignore s = some s

  -- The last loop of `handle_input`.
  unfoldable pub append_input : Text → State sc → State sc
  append_input [] s = s
  append_input (c ∷ input) s =
      append_input input (if isprint_unicode c then append_search c s else s)

  unfoldable pub run_action : Action → State sc → Option (State sc)
  run_action action s = perform action s >>= λ t. some (record t { input = [] })

  -- `handle_input` behind its loop over the keys.
  unfoldable pub answer : Option Action → Bool → Bool → State sc → Option (State sc)
  answer (some action) in_middle handle_ambiguous_key s =
      if not in_middle || handle_ambiguous_key
      then run_action action s
      else some (record s { ambiguous_key_pending = true })
  answer none in_middle handle_ambiguous_key s =
      if in_middle then some s else some (record (append_input s.input s) { input = [] })

  unfoldable pub handle_input : Text → Bool → State sc → Option (State sc)
  handle_input keys handle_ambiguous_key s =
      let input = s.input ++ keys in
      let found =
        find_keybinding input (record { keybinding = none; in_middle = false }) keybindings in
      answer found.keybinding found.in_middle handle_ambiguous_key
        (record s { ambiguous_key_pending = false; input = input })

  -- `tty_interface_init` with the search to begin with.
  unfoldable pub begin_with : Tty → Choices sc → Text → State sc
  begin_with tty c search = update_search (record {
    tty = tty;
    choices = c;
    search = search;
    last_search = [];
    cursor = length search;
    ambiguous_key_pending = false;
    input = [];
    exit = none;
    emitted = [];
  })

  unfoldable pub first_search : Option Text → Option Text
  first_search none = some []
  first_search (some text) = strncpy text

  unfoldable pub tty_interface_init : Tty → Choices sc → Option (State sc)
  tty_interface_init tty c = first_search init_search >>= λ search. some (begin_with tty c search)

  unfoldable pub has_exited : State sc → Bool
  has_exited s = elim s.exit [ none ↦ false | some code ↦ true ]

  -- What the loops do behind the wait that finds no further byte.
  unfoldable pub after_pause : State sc → Option (State sc)
  after_pause s =
      if s.ambiguous_key_pending
      then (handle_input [] true s >>= λ t. some (if has_exited t then t else update_state t))
      else some (update_state s)

  -- A byte, which ends the string that it is put into if it is 0, up to the next wait for input or the return.
  unfoldable pub after_key : ℕ → Bool → State sc → Option (State sc)
  unfolding has_exited after_pause
  after_key c more s = handle_input (if c == 0 then [] else c ∷ []) false s >>= λ t.
      if has_exited t
      then some t
      else if more
      then some (draw sc options env t)
      else after_pause (draw sc options env t)

  -- `tty_interface_run` behind its first call of `draw`, up to its return or the end of the events.
  unfoldable pub run : List Event → State sc → Option (State sc)
  unfolding has_exited
  run [] s = some s
  run (resized ∷ es) s = run es (draw sc options env s)
  run (key c more ∷ es) s = after_key c more s >>= λ t. if has_exited t then some t else run es t
