-- ===== src/Samples/Runs.antt =====
-- Runs under the fuzz harness.
use clang_witness_inject.Prelude.{
  ℕ, ◌+◌, ◌%◌, ◌^◌, ◌<◌, ◌≡◌, refl, true, Option, none, some, Text, codes, arith, if◌then◌else◌,
  text_eq, value_of,
}
use clang_witness_inject.Harness.{Environment, init, ending, timed_out, exits}
use clang_witness_inject.Harness.Settings.{expected, ending-init}
use clang_witness_inject.Harness.Nondet.{int, nondet, fill_memory}
use clang_witness_inject.Harness.Nondet.Values.{byte_of, nondet_bytes}
use clang_witness_inject.Harness.Nondet.Memory.{fill_memory-inside, fill_memory-call}

variables : Text → Option Text
unfolding text_eq
variables name =
    if text_eq name (codes "FUZZ_HARNESS_TIMEOUT")
    then some (codes "2500000")
    else if text_eq name (codes "FUZZ_HARNESS_RC")
    then some (codes "7")
    else none

abbrev env : Environment
env = record { getenv = variables; strtol = value_of 0; strtoull = value_of 0 }

ending-init_example : ending env (init env true) timed_out ≡ expected env true timed_out
ending-init_example = ending-init env true timed_out

-- A run that times out exits with FUZZ_HARNESS_RC.
timeout_exits : expected env true timed_out ≡ exits 7
unfolding variables value_of
timeout_exits = refl

abbrev counting : ℕ → ℕ
counting n = n + 250

abbrev zeroed : ℕ → ℕ
zeroed a = 0

fill_memory-inside_example :
    (fill_memory counting 4 100 0 zeroed).0 (100 + 3) ≡ counting (0 + 3) % 256
fill_memory-inside_example = fill_memory-inside counting 4 100 0 zeroed 3 (omega arith)

fill_memory-call_example : (fill_memory counting 4 100 0 zeroed).1 ≡ 0 + 4
fill_memory-call_example = fill_memory-call counting 4 100 0 zeroed

nondet_bytes_example :
    ((j : ℕ) → j < 4 → byte_of (nondet counting int 3).0 j ≡ counting (3 + j) % 256)
    × ((nondet counting int 3).0 < 256 ^ 4)
    × ((nondet counting int 3).1 ≡ 3 + 4)
nondet_bytes_example = nondet_bytes counting int 3
