-- ===== src/Witness/Paths.antt =====
-- `Entry::ReadInto` of src/witness.cpp, after the YAML has been read: the file name of every
-- invariant is resolved against the folder of the witness file. The path functions of LLVM are a
-- parameter. What the parse left in `out` is an argument, since an error of the parse is not looked
-- at.
pub mod Laws
use clang_witness_inject.Prelude.{Bool, List, [], ◌∷◌, map, Text, ◌==◌, if◌then◌else◌}
use clang_witness_inject.Witness.{Location, InvariantItem, Entry}

-- The answer of `real_path`: a path, or the message of its error.
pub data RealPath : Type 0 where
  found : Text → RealPath
  failed : Text → RealPath

pub record Paths : Type 0 where
  pub real_path : Text → RealPath
  pub is_absolute : Text → Bool
  pub parent_path : Text → Text
  pub append : Text → Text → Text

-- A buffer read as a C string ends at its first NUL.
unfoldable pub c_str : Text → Text
c_str [] = []
c_str (b ∷ bs) = let rest = c_str bs in if b == 0 then [] else b ∷ rest

-- The entries, or the message of the exception that is thrown.
pub data Outcome : Type 0 where
  entries : List Entry → Outcome
  runtime_error : Text → Outcome

module _ (p : Paths) where
  open p use {real_path, is_absolute, parent_path, append}

  -- The body of the inner loop.
  unfoldable pub resolve_location : Text → Location → Location
  resolve_location witness_file l =
      if is_absolute l.filepath
      then l
      else record l { filepath = c_str (append (parent_path witness_file) l.filepath) }

  unfoldable pub resolve_item : Text → InvariantItem → InvariantItem
  resolve_item witness_file m = record {
    invariant = record m.invariant {
      location = resolve_location witness_file m.invariant.location;
    };
  }

  unfoldable pub resolve_entry : Text → Entry → Entry
  resolve_entry witness_file e = record e { content = map (resolve_item witness_file) e.content }

  resolve_all : RealPath → List Entry → Outcome
  resolve_all (failed message) out = runtime_error message
  resolve_all (found witness_file) out = entries (map (resolve_entry witness_file) out)

  unfoldable pub read_into : Text → List Entry → Outcome
  unfolding resolve_all
  read_into filepath out = resolve_all (real_path filepath) out
