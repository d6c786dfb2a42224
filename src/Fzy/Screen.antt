-- ===== src/Fzy/Screen.antt =====
-- The state of tty_interface.c in examples/fzy.c and what it draws.
pub mod Visible
use clang_witness_inject.Prelude.{
  ℕ, zero, suc, ◌+◌, ◌-◌, Bool, true, false, ◌&&◌, ◌^◌, ◌%◌, Option, none, some, List, [], ◌∷◌,
  ◌++◌, Text, codes, to_string, length, leb, ltb, ◌==◌, if◌then◌else◌,
}
use clang_witness_inject.Fzy.Chars.{take}
use clang_witness_inject.Fzy.Scores.{Scores}
use clang_witness_inject.Fzy.Choices.{Choice, ScoredResult, Choices, available, choices_get}
use clang_witness_inject.Fzy.Match.{Rows, match_positions, lowest}
use clang_witness_inject.Fzy.Terminal.{
  Tty, ◌|>◌, tty_printf, tty_putc, tty_setfg, tty_setinvert, tty_setnormal, tty_setnowrap,
  tty_setwrap, tty_newline, tty_clearline, tty_setcol, tty_moveup,
}

-- The options that the interface reads.
pub record Options : Type 0 where
  pub init_search : Option Text
  pub show_scores : Bool
  pub scrolloff : ℕ
  pub num_lines : ℕ
  pub prompt : Text
  pub show_info : Bool

-- 1 for true, as in C.
abbrev pub to_int : Bool → ℕ
to_int true = 1
to_int false = 0

-- `start` of `draw`: the first result on the screen. The last subtraction wraps.
unfoldable pub draw_start : (num_lines scrolloff selection available : ℕ) → ℕ
draw_start num_lines scrolloff selection available =
    if ltb (selection + scrolloff) num_lines
    then 0
    else let start = selection + scrolloff - num_lines + 1 in
      if leb available (start + num_lines) && ltb 0 available
      then (available + 2 ^ 64 - num_lines) % 2 ^ 64
      else start

-- `search` is what the threads of `choices_search` leave as results, `heap` and `unset` what memory
-- that is not set holds.
pub record Environment (sc : Scores) : Type 0 where
  pub search : List Choice → Text → List (ScoredResult sc)
  pub heap : ℕ → Rows sc
  pub unset : Rows sc
  pub positions : ℕ → ℕ

module _ (sc : Scores) where
  -- `tty_interface_t`; `exit` is `none` for -1. `emitted` is what `printf` writes to stdout.
  pub record State : Type 0 where
    pub tty : Tty
    pub choices : Choices sc
    pub search : Text
    pub last_search : Text
    pub cursor : ℕ
    pub ambiguous_key_pending : Bool
    pub input : Text
    pub exit : Option ℕ
    pub emitted : Text

module _ (sc : Scores) (options : Options) (env : Environment sc) where
  open options use {num_lines, scrolloff, prompt, show_scores, show_info}

  abbrev pub write : (Tty → Tty) → State sc → State sc
  write f s = record s { tty = f s.tty }

  newlines : ℕ → Tty → Tty
  newlines zero tty = tty
  newlines (suc n) tty = newlines n (tty |> tty_newline)

  -- `line` is one more than the newlines at the end of the loop.
  unfoldable pub clear : Tty → Tty
  unfolding newlines
  clear tty =
      let n = num_lines + to_int show_info in
      let below = tty |> tty_setcol 0 |> newlines n |> tty_clearline in
      if ltb 0 num_lines then below |> tty_moveup n else below

  -- The loop of `draw_match`, from character `i` on.
  draw_chars : (ℕ → ℕ) → (i p : ℕ) → Text → Tty → Tty
  draw_chars positions i p [] tty = tty
  draw_chars positions i p (c ∷ choice) tty =
      let here = positions p == i in
      draw_chars positions (i + 1) (if here then p + 1 else p) choice
        (tty |> tty_setfg (if here then 3 else 9) |> tty_putc (if c == 10 then 32 else c))

  -- The first entries of `positions` are set to -1, which no index equals.
  abbrev initial_positions : ℕ → ℕ → ℕ
  initial_positions n i = if ltb i (n + 1) && ltb i 1024 then 2 ^ 64 - 1 else env.positions i

  unfoldable pub draw_match : Text → Text → Bool → Tty → Tty
  unfolding draw_chars
  draw_match last_search choice selected tty =
      let found =
        match_positions sc env.heap env.unset last_search choice
          (initial_positions (length last_search)) in
      let score = found.0 in
      let score_text =
        if sc.eq score (lowest sc)
        then codes "(     ) "
        else codes "(" ++ sc.format score ++ codes ") " in
      let scored = if show_scores then tty |> tty_printf score_text else tty in
      let inverted = if selected then tty_setinvert scored else scored in
      inverted |> tty_setnowrap |> draw_chars found.1 0 0 choice |> tty_setwrap |> tty_setnormal

  -- The loop of `draw` over the next `n` lines from result `i` on. Its bound wraps.
  draw_lines : State sc → (n i : ℕ) → Tty → Tty
  draw_lines s zero i tty = tty
  draw_lines s (suc n) i tty =
      let cleared = tty |> tty_printf (10 ∷ []) |> tty_clearline in
      let drawn : Tty = elim (choices_get sc s.choices i) [
        | none ↦ cleared
        | some choice ↦ draw_match s.last_search choice (i == s.choices.selection) cleared
      ] in
      draw_lines s n (i + 1) drawn

  unfoldable pub draw : State sc → State sc
  unfolding draw_lines
  draw s =
      let c = s.choices in
      let start = draw_start num_lines scrolloff c.selection (available sc c) in
      let lines = num_lines + to_int show_info in
      let top = s.tty |> tty_setcol 0 |> tty_printf (prompt ++ s.search) |> tty_clearline in
      let info =
        codes "\n["
        ++ to_string (available sc c)
        ++ codes "/"
        ++ to_string (length c.strings)
        ++ codes "]" in
      let headed = if show_info then top |> tty_printf info |> tty_clearline else top in
      let stop = (start + num_lines) % 2 ^ 64 in
      let listed = headed |> draw_lines s (stop - start) start in
      let raised = if ltb 0 lines then listed |> tty_moveup lines else listed in
      record s {
        tty = raised |> tty_setcol 0 |> tty_printf prompt |> tty_printf (take s.cursor s.search);
      }
