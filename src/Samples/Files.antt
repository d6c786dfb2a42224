-- ===== src/Samples/Files.antt =====
-- POSIX paths, a witness file, and a command line.
use clang_witness_inject.Prelude.{
  ◌⊎◌, inl, inr, if◌then◌else◌, ◌||◌, ◌≡◌, refl, Bool, true, false, Option, some, List, [], ◌∷◌,
  ◌++◌, Text, codes, ◌==◌, arith, All, map,
}
use clang_witness_inject.Witness.{loop, c_expression, invariant_set, Entry}
use clang_witness_inject.Witness.Paths.{
  Paths, RealPath, found, c_str, entries, read_into, resolve_location, resolve_item, resolve_entry,
}
use clang_witness_inject.Witness.Paths.Laws.{
  PathLaws, HasFolder, HasAbsolute, forget_paths, read_into-HasAbsolute, read_into-rest,
}
use clang_witness_inject.Inject.{WitnessInjectionConfig}
use clang_witness_inject.Main.{Options, Arguments, main, run_tool, split_args}
use clang_witness_inject.Main.CommandLine.{IsGoodRun, main-IsGoodRun, IsParted, split_args-IsParted}

starts_at_root : Text → Bool
starts_at_root [] = false
starts_at_root (b ∷ bs) = b == b'/'

-- Every path is found below the root.
under_root : Text → RealPath
under_root t = found (b'/' ∷ t)

has_slash : Text → Bool
has_slash [] = false
has_slash (b ∷ bs) = b == b'/' || has_slash bs

up_to_slash : Text → Text
up_to_slash [] = []
up_to_slash (b ∷ bs) = let rest = up_to_slash bs in if has_slash bs then b ∷ rest else []

-- The folder of an absolute path, the empty path for the root.
folder_of : Text → Text
unfolding up_to_slash has_slash
folder_of [] = []
folder_of (b ∷ []) = []
folder_of (b ∷ c ∷ bs) = b ∷ up_to_slash (c ∷ bs)

join : Text → Text → Text
join [] f = f
join (b ∷ []) f = b ∷ f
join (b ∷ c ∷ bs) f = (b ∷ c ∷ bs) ++ b'/' ∷ f

abbrev posix : Paths
posix = record {
  real_path = under_root;
  is_absolute = starts_at_root;
  parent_path = folder_of;
  append = join;
}

root_first : (f w : Text) → under_root f ≡ found w → starts_at_root w ≡ true
unfolding under_root starts_at_root
root_first f [] h = ground arith
root_first f (b ∷ bs) h = ground arith

append_first : (d f : Text) → starts_at_root d ≡ true → starts_at_root (join d f) ≡ true
unfolding starts_at_root join
append_first [] f h = cc
append_first (b ∷ []) f h = h
append_first (b ∷ c ∷ bs) f h = h

c_str_first : (f : Text) → starts_at_root f ≡ true → starts_at_root (c_str f) ≡ true
unfolding starts_at_root c_str
c_str_first [] h = cc
c_str_first (b ∷ bs) h = ground arith

folder_first :
    (w : Text)
    → starts_at_root w ≡ true
    → (starts_at_root (folder_of w) ≡ true) ⊎ (folder_of w ≡ [])
unfolding starts_at_root folder_of
folder_first [] h = inr refl
folder_first (b ∷ []) h = inr refl
folder_first (b ∷ c ∷ bs) h = inl h

abbrev posix_laws : PathLaws posix
posix_laws = record {
  real_path-absolute = root_first;
  parent_path-absolute = λ f w at h. folder_first w h;
  append-absolute = append_first;
  c_str-absolute = c_str_first;
}

below_root : HasFolder posix (codes "w.yml")
unfolding under_root folder_of
below_root [] h = cc
below_root (b ∷ []) h = λ e. cc
below_root (b ∷ c ∷ w) h = λ e. cc

abbrev entry_for : Text → Entry
entry_for file = record {
  entry_type = invariant_set;
  content =
      record {
        invariant = record {
          type = loop;
          location = record { filepath = file; line = 4; column = 9; function = codes "main" };
          value = codes "(x < 3)";
          format = c_expression;
        };
      }
      ∷ [];
}

abbrev relative : List Entry
relative = entry_for (codes "a.c") ∷ []

abbrev resolved : List Entry
resolved = entry_for (codes "/a.c") ∷ []

resolves : read_into posix (codes "w.yml") relative ≡ entries resolved
unfolding read_into resolve_entry resolve_item resolve_location starts_at_root c_str under_root
    folder_of join
resolves = refl

read_into-HasAbsolute_example : All (HasAbsolute posix) resolved
read_into-HasAbsolute_example =
    read_into-HasAbsolute posix (codes "w.yml") relative resolved posix_laws below_root resolves

read_into-rest_example : map forget_paths resolved ≡ map forget_paths relative
read_into-rest_example = read_into-rest posix (codes "w.yml") relative resolved resolves

abbrev options : Options
options = record {
  witness_yaml_path = codes "w.yml";
  assert_fn = codes "assert";
  skip_switch_cases = false;
  clang_args = codes "-O2" ∷ codes "a.c" ∷ [] ∷ [];
}

abbrev readable : Text → Option (List Entry)
readable t = some relative

abbrev config : WitnessInjectionConfig
config = record { witness = resolved; assert_fn = codes "assert"; skip_switchcases = false }

abbrev parted : Arguments
parted = record { source_files = codes "a.c" ∷ []; compiler_flags = codes "-O2" ∷ [] ∷ [] }

runs : main posix readable options ≡ run_tool config parted
unfolding main read_into resolve_entry resolve_item resolve_location starts_at_root c_str under_root
    folder_of join split_args
runs = refl

main-IsGoodRun_example : IsGoodRun posix readable options config parted
main-IsGoodRun_example =
    main-IsGoodRun posix readable options config parted posix_laws below_root runs

split_args-IsParted_example : IsParted options.clang_args (split_args options.clang_args)
split_args-IsParted_example = split_args-IsParted options.clang_args

-- The value of an option that stands in an argument of its own is taken for a source file.
include_path : (split_args (codes "-I" ∷ codes "include" ∷ [])).source_files ≡ codes "include" ∷ []
unfolding split_args
include_path = refl
