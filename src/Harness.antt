-- ===== src/Harness.antt =====
-- fuzz_harness/fuzz_harness.c: the settings that the environment makes, and how a run under the
-- harness ends. The environment and the number parsers of the C library are a parameter. An `int`
-- is its bit pattern, a number below 2^32.
pub mod Settings
pub mod Nondet
use clang_witness_inject.Prelude.{
  ℕ, ◌-◌, ◌+◌, ◌/◌, ◌%◌, ◌^◌, Bool, true, false, Option, none, some, [], ◌∷◌, Text, codes,
}

-- `strtol` and `strtoull` at base 10, as 64-bit patterns.
pub record Environment : Type 0 where
  pub getenv : Text → Option Text
  pub strtol : Text → ℕ
  pub strtoull : Text → ℕ

-- The conversion of a 64-bit number to `int`.
abbrev pub to_int : ℕ → ℕ
to_int n = n % 2 ^ 32

-- `micro` of the timer.
abbrev micro : ℕ
micro = 1000000

pub record Timer : Type 0 where
  pub tv_sec : ℕ
  pub tv_usec : ℕ

-- The static variables of the file, the signal handlers and callbacks that are installed, and the
-- timer that is set.
pub record Harness : Type 0 where
  pub timeout_code : ℕ
  pub abort_code : ℕ
  pub witness_assert_code : ℕ
  pub sanitizer_death_code : ℕ
  pub handles_abort : Bool
  pub handles_alarm : Bool
  pub handles_death : Bool
  pub timer : Option Timer

-- The initialisers: 0, 0, -1 and -2.
abbrev pub start : Harness
start = record {
  timeout_code = 0;
  abort_code = 0;
  witness_assert_code = 2 ^ 32 - 1;
  sanitizer_death_code = 2 ^ 32 - 2;
  handles_abort = false;
  handles_alarm = false;
  handles_death = false;
  timer = none;
}

-- A variable that is set and not empty.
abbrev given : Option Text → Option Text
given none = none
given (some []) = none
given (some (b ∷ bs)) = some (b ∷ bs)

module _ (env : Environment) where
  open env use {getenv, strtol, strtoull}

  abbrev pub variable : Text → Option Text
  variable name = given (getenv name)

  -- `__fuzz_harness_get_exit_code`: the value behind `rc`, and what is returned.
  unfoldable pub get_exit_code : ℕ → ℕ × Bool
  get_exit_code rc = elim (variable (codes "FUZZ_HARNESS_RC")) [
    | none ↦ (rc, false)
    | some value ↦ (to_int (strtol value), true)
  ]

  pick_code : ℕ × Bool → ℕ → ℕ
  pick_code (rc, true) ret = rc
  pick_code (rc, false) ret = ret

  -- `__fuzz_harness_main`, where the program's own `main` returns `ret`.
  unfoldable pub harness_main : ℕ → ℕ
  unfolding pick_code
  harness_main ret = pick_code (get_exit_code 0) ret

  -- The four parts of `__fuzz_harness_init`.
  unfoldable pub init_witness_assert : Harness → Harness
  init_witness_assert h = elim (variable (codes "FUZZ_HARNESS_WITNESS_ASSERT_RC")) [
    | none ↦ h
    | some value ↦ record h { witness_assert_code = to_int (strtoull value) }
  ]

  unfoldable pub init_abort : Harness → Harness
  init_abort h = elim (variable (codes "FUZZ_HARNESS_ABORT_RC")) [
    | none ↦ h
    | some value ↦ record h { abort_code = to_int (strtoull value); handles_abort = true }
  ]

  -- `hook` is whether the file is compiled with `FUZZ_HARNESS_SANITIZER_HOOK`.
  install_death : Bool → Text → Harness → Harness
  install_death true value h = record h {
    sanitizer_death_code = to_int (strtoull value);
    handles_death = true;
  }
  install_death false value h = h

  unfoldable pub init_sanitizer : Bool → Harness → Harness
  unfolding install_death
  init_sanitizer hook h = elim (variable (codes "FUZZ_HARNESS_SANITIZER_RC")) [
    | none ↦ h
    | some value ↦ install_death hook value h
  ]

  unfoldable pub init_timeout : Harness → Harness
  init_timeout h = elim (variable (codes "FUZZ_HARNESS_TIMEOUT")) [
    | none ↦ h
    | some value ↦ record h {
      timeout_code = (get_exit_code h.timeout_code).0;
      handles_alarm = true;
      timer = some (record { tv_sec = strtoull value / micro; tv_usec = strtoull value % micro });
    }
  ]

  unfoldable pub init : Bool → Harness
  init hook = init_timeout (init_sanitizer hook (init_abort (init_witness_assert start)))

-- What may end a run: the program's `main` returns, an assertion of the witness fails, the timer
-- runs out, the program aborts (`__VERIFIER_error` does), or a sanitizer kills it.
pub data Event : Type 0 where
  returned : ℕ → Event
  assert_failed timed_out aborted sanitizer_died : Event

-- How the process ends: with an exit code, or in the way that the system has for an event that
-- nobody handles.
pub data Ending : Type 0 where
  exits : ℕ → Ending
  unhandled : Event → Ending

handled : Bool → ℕ → Event → Ending
handled true code e = exits code
handled false code e = unhandled e

-- `__fuzz_harness_assert_fail` and the handlers.
unfoldable pub ending : Environment → Harness → Event → Ending
unfolding handled
ending env h (returned ret) = exits (harness_main env ret)
ending env h assert_failed = exits h.witness_assert_code
ending env h timed_out = handled h.handles_alarm h.timeout_code timed_out
ending env h aborted = handled h.handles_abort h.abort_code aborted
ending env h sanitizer_died = handled h.handles_death h.sanitizer_death_code sanitizer_died

-- What the parent sees of an exit code.
abbrev status : ℕ → ℕ
status code = code % 256
