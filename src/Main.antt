-- ===== src/Main.antt =====
-- src/main.cpp and src/action.cpp: the command line, and what the tool is run with. LLVM's option
-- parser, the files and the parse of the witness are parameters.
pub mod CommandLine
use clang_witness_inject.Prelude.{
  ℕ, Bool, true, false, ◌&&◌, not, Option, none, some, List, [], ◌∷◌, Text, ◌==◌, if◌then◌else◌,
}
use clang_witness_inject.Witness.{Entry}
use clang_witness_inject.Witness.Paths.{Paths, Outcome, entries, runtime_error, read_into}
use clang_witness_inject.Inject.{WitnessInjectionConfig}

-- The options of the tool, and in `clang_args` the arguments that it does not know.
pub record Options : Type 0 where
  pub witness_yaml_path : Text
  pub assert_fn : Text
  pub skip_switch_cases : Bool
  pub clang_args : List Text

-- `!arg.empty() && arg[0] != '-'`.
unfoldable pub is_source : Text → Bool
is_source [] = false
is_source (b ∷ bs) = not (b == b'-')

pub record Arguments : Type 0 where
  pub source_files : List Text
  pub compiler_flags : List Text

-- The loop over the arguments, with what was pushed so far before it.
unfoldable pub split_args : List Text → Arguments
unfolding is_source
split_args [] = record { source_files = []; compiler_flags = [] }
split_args (arg ∷ args) =
    let rest = split_args args in
    if is_source arg
    then record rest { source_files = arg ∷ rest.source_files }
    else record rest { compiler_flags = arg ∷ rest.compiler_flags }

-- How `main` ends: with exit code 1 and a message, by an exception that nobody catches, or with the
-- result of running the tool on these source files with these flags and this configuration.
pub data Ending : Type 0 where
  failed_to_open : Text → Ending
  uncaught : Text → Ending
  run_tool : WitnessInjectionConfig → Arguments → Ending

module _ (p : Paths) (contents : Text → Option (List Entry)) where
  run_with : Options → Outcome → Ending
  run_with o (runtime_error message) = uncaught message
  run_with o (entries es) =
      run_tool
        (record { witness = es; assert_fn = o.assert_fn; skip_switchcases = o.skip_switch_cases })
        (split_args o.clang_args)

  -- `contents` answers with the entries that the parse of a file leaves, if the file can be read.
  unfoldable pub main : Options → Ending
  unfolding run_with
  main o = elim (contents o.witness_yaml_path) [
    | none ↦ failed_to_open o.witness_yaml_path
    | some out ↦ run_with o (read_into p o.witness_yaml_path out)
  ]
