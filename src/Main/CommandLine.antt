-- ===== src/Main/CommandLine.antt =====
-- How src/main.cpp parts its arguments, and what reaches the tool.
use clang_witness_inject.Prelude.{
  ◌≡◌, ◌≢◌, refl, subst, true, false, Option, some, map, List, [], ◌∷◌, Text, All, arith,
  Bool-cases, Option-cases, inl, inr,
}
use clang_witness_inject.Witness.{Entry}
use clang_witness_inject.Witness.Paths.{Paths, Outcome, entries, runtime_error, read_into}
use clang_witness_inject.Witness.Paths.Laws.{
  PathLaws, HasFolder, HasAbsolute, forget_paths, read_into-HasAbsolute, read_into-rest,
}
use clang_witness_inject.Inject.{WitnessInjectionConfig}
use clang_witness_inject.Main.{Options, Arguments, is_source, split_args, run_with, main, run_tool}

-- `zs` is `xs` and `ys` put together, each in its order.
pub data Interleaved {A : Type 0} : List A → List A → List A → Type 0 where
  nil : Interleaved [] [] []
  left : {x : A} {xs ys zs : List A} → Interleaved xs ys zs → Interleaved (x ∷ xs) ys (x ∷ zs)
  right : {y : A} {xs ys zs : List A} → Interleaved xs ys zs → Interleaved xs (y ∷ ys) (y ∷ zs)

-- An argument that is not empty and does not begin with a dash; and any other.
abbrev IsFile : Text → Type 0
IsFile [] = ⊥
IsFile (b ∷ bs) = b ≢ b'-'

abbrev IsFlag : Text → Type 0
IsFlag [] = Unit
IsFlag (b ∷ bs) = b ≡ b'-'

pub record IsParted (args : List Text) (a : Arguments) : Type 0 where
  pub files : All IsFile a.source_files
  pub flags : All IsFlag a.compiler_flags
  pub kept : Interleaved a.source_files a.compiler_flags args

is_source-IsFile : (arg : Text) → is_source arg ≡ true → IsFile arg
unfolding is_source
is_source-IsFile [] h = cc
is_source-IsFile (b ∷ bs) h = ground arith

is_source-IsFlag : (arg : Text) → is_source arg ≡ false → IsFlag arg
unfolding is_source
is_source-IsFlag [] h = tt
is_source-IsFlag (b ∷ bs) h = ground arith

-- Every argument goes to exactly one of the two lists, in its order: to the source files if it is
-- not empty and does not begin with a dash, and to the compiler's flags otherwise.
pub split_args-IsParted : (args : List Text) → IsParted args (split_args args)
unfolding split_args
split_args-IsParted [] = record { files = tt; flags = tt; kept = nil }
split_args-IsParted (arg ∷ args) =
    let rest = split_args-IsParted args in
    elim (Bool-cases (is_source arg)) [
      | inl e ↦
          rw (e, split_args)
            (record {
              files = (is_source-IsFile arg e, rest.files);
              flags = rest.flags;
              kept = left rest.kept;
            })
      | inr e ↦
          rw (e, split_args)
            (record {
              files = rest.files;
              flags = (is_source-IsFlag arg e, rest.flags);
              kept = right rest.kept;
            })
    ]

-- What the tool is run with: the witness that the file holds, but for file names, which are absolute.
pub record IsGoodRun (p : Paths) (contents : Text → Option (List Entry)) (o : Options)
    (config : WitnessInjectionConfig) (args : Arguments) : Type 0 where
  pub absolute : All (HasAbsolute p) config.witness
  pub kept :
      (out : List Entry) × (contents o.witness_yaml_path ≡ some out)
      × (map forget_paths config.witness ≡ map forget_paths out)
  pub asserts : config.assert_fn ≡ o.assert_fn
  pub skips : config.skip_switchcases ≡ o.skip_switch_cases
  pub parted : IsParted o.clang_args args

run_with-IsGoodRun :
    (p : Paths) (contents : Text → Option (List Entry)) (o : Options) (out : List Entry)
    (r : Outcome) (config : WitnessInjectionConfig) (args : Arguments)
    → PathLaws p
    → HasFolder p o.witness_yaml_path
    → contents o.witness_yaml_path ≡ some out
    → read_into p o.witness_yaml_path out ≡ r
    → run_with p contents o r ≡ run_tool config args
    → IsGoodRun p contents o config args
unfolding run_with
run_with-IsGoodRun p contents o out (runtime_error message) config args laws folder c e h = cc
run_with-IsGoodRun p contents o out (entries es) config args laws folder c e h =
    let same : es ≡ config.witness = ground arith in
    record {
      absolute =
          subst (All (HasAbsolute p)) same
            (read_into-HasAbsolute p o.witness_yaml_path out es laws folder e);
      kept = (
        out,
        c,
        subst (λ xs. map forget_paths xs ≡ map forget_paths out) same
            (read_into-rest p o.witness_yaml_path out es e),
      );
      asserts = ground arith;
      skips = ground arith;
      parted = subst (IsParted o.clang_args) (cc) (split_args-IsParted o.clang_args);
    }

-- If the tool is run at all, it is run with the entries that were read from the witness file, all
-- file names in them absolute and nothing else changed, with the assert function and the switch of
-- the command line and with the arguments as they were parted; this given that the witness file is
-- not the root folder and that the path functions behave as LLVM documents.
pub main-IsGoodRun :
    (p : Paths) (contents : Text → Option (List Entry)) (o : Options)
    (config : WitnessInjectionConfig) (args : Arguments)
    → PathLaws p
    → HasFolder p o.witness_yaml_path
    → main p contents o ≡ run_tool config args
    → IsGoodRun p contents o config args
unfolding main
main-IsGoodRun p contents o config args laws folder h =
    elim (Option-cases (contents o.witness_yaml_path)) [
      | inl e ↦ let bad = rw (e, main) at h in cc
      | inr (out, e) ↦
          run_with-IsGoodRun p contents o out (read_into p o.witness_yaml_path out) config args laws
            folder e refl (rw (e, main) at h)
    ]
