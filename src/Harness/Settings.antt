-- ===== src/Harness/Settings.antt =====
-- What the environment settles in fuzz_harness/fuzz_harness.c.
use clang_witness_inject.Prelude.{
  ℕ, ◌-◌, ◌+◌, ◌*◌, ◌^◌, ◌<◌, ◌≡◌, Bool, true, false, Option, none, some, Option-cases, inl, inr,
  Text, codes, arith,
}
use clang_witness_inject.Harness.{
  Environment, Harness, Timer, start, to_int, variable, get_exit_code, harness_main, init,
  init_witness_assert, init_abort, init_sanitizer, init_timeout, Ending, exits, unhandled, Event,
  returned, assert_failed, timed_out, aborted, sanitizer_died, ending,
}

-- The code that a variable gives, or `d` if it is not set or empty.
abbrev code_or : ℕ → (Text → ℕ) → Option Text → ℕ
code_or d parse none = d
code_or d parse (some value) = to_int (parse value)

-- An event that is handled if and only if a variable is set and not empty.
abbrev handled_if : Event → (Text → ℕ) → Option Text → Ending
handled_if e parse none = unhandled e
handled_if e parse (some value) = exits (to_int (parse value))

abbrev timeout_ending : ℕ → Option Text → Ending
timeout_ending code none = unhandled timed_out
timeout_ending code (some value) = exits code

module _ (env : Environment) where
  -- How a run ends, by the event and by the variables that are set and not empty.
  abbrev pub expected : Bool → Event → Ending
  expected hook (returned ret) =
      exits (code_or ret env.strtol (variable env (codes "FUZZ_HARNESS_RC")))
  expected hook assert_failed =
      exits
        (code_or (2 ^ 32 - 1) env.strtoull (variable env (codes "FUZZ_HARNESS_WITNESS_ASSERT_RC")))
  expected hook timed_out =
      timeout_ending (code_or 0 env.strtol (variable env (codes "FUZZ_HARNESS_RC")))
        (variable env (codes "FUZZ_HARNESS_TIMEOUT"))
  expected hook aborted =
      handled_if aborted env.strtoull (variable env (codes "FUZZ_HARNESS_ABORT_RC"))
  expected true sanitizer_died =
      handled_if sanitizer_died env.strtoull (variable env (codes "FUZZ_HARNESS_SANITIZER_RC"))
  expected false sanitizer_died = unhandled sanitizer_died

  -- After the initialisation each event ends the run as its variables say. A return of `main` is
  -- replaced by FUZZ_HARNESS_RC, a failed assertion exits with FUZZ_HARNESS_WITNESS_ASSERT_RC or -1,
  -- a timeout under FUZZ_HARNESS_TIMEOUT exits with FUZZ_HARNESS_RC or 0, an abort is handled if and
  -- only if FUZZ_HARNESS_ABORT_RC is set and exits with it, and so is the death by a sanitizer with
  -- FUZZ_HARNESS_SANITIZER_RC if the file is compiled with the hook.
  pub ending-init : (hook : Bool) (e : Event) → ending env (init env hook) e ≡ expected hook e
  unfolding init init_witness_assert init_abort init_sanitizer init_timeout harness_main ending
      get_exit_code
  ending-init true (returned ret) = ground arith
  ending-init _ _ = ground arith

  -- A timer for the value of FUZZ_HARNESS_TIMEOUT, or none where there is no value.
  abbrev IsTimerFor : Option Text → Option Timer → Type 0
  IsTimerFor none t = t ≡ none
  IsTimerFor (some value) none = ⊥
  IsTimerFor (some value) (some t) =
      (t.tv_sec * 1000000 + t.tv_usec ≡ env.strtoull value) × (t.tv_usec < 1000000)

  timeout-timer :
      (h : Harness)
      → h.timer ≡ none
      → IsTimerFor (variable env (codes "FUZZ_HARNESS_TIMEOUT")) (init_timeout env h).timer
  unfolding init_timeout
  timeout-timer h off = elim (Option-cases (variable env (codes "FUZZ_HARNESS_TIMEOUT"))) [
    | inl e ↦ rw (e, init_timeout) off
    | inr (value, e) ↦ rw (e, init_timeout) (omega arith, omega arith)
  ]

  untimed :
      (hook : Bool)
      → (init_sanitizer env hook (init_abort env (init_witness_assert env start))).timer ≡ none
  unfolding init_witness_assert init_abort init_sanitizer
  untimed true = ground arith
  untimed false = ground arith

  -- The timer is set if and only if FUZZ_HARNESS_TIMEOUT is set and not empty, and then to that
  -- number of microseconds: whole seconds, and fewer than a million microseconds.
  init-timer :
      (hook : Bool) → IsTimerFor (variable env (codes "FUZZ_HARNESS_TIMEOUT")) (init env hook).timer
  unfolding init
  init-timer hook = timeout-timer _ (untimed hook)
