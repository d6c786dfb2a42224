-- ===== src/Witness/Yaml.antt =====
-- The YAML traits of src/witness.cpp, in the direction of LLVM's `Input`, which is a parameter. A trait
-- fills in a value that it is given. It goes on behind an error, so a value comes with what
-- `io.error()` tells: true once an error is reported.
pub mod Laws
pub mod Described
pub mod Entries
pub mod Partly
use clang_witness_inject.Prelude.{ℕ, Bool, false, Option, List, [], ◌∷◌, Text, codes}
use clang_witness_inject.Witness.{
  Location, InvariantType, location, loop, InvariantFormat, c_expression, Invariant, InvariantItem,
  EntryType, invariant_set, Entry,
}

-- A node of a document, in which no mapping has a key twice, what it holds, where an empty node holds
-- the empty sequence, and the calls of `Input` at it: `mapRequired` with the reading of a value, the
-- reading of the scalars, the `enumCase` lines of an enumeration, and the reading of a vector, whose
-- new elements are like the first argument.
pub record YamlInput : Type 1 where
  pub Doc : Type 0
  pub required : Text → Doc → Option Doc
  pub scalar : Doc → Option Text
  pub uint64 : Doc → Option ℕ
  pub uint32 : Doc → Option ℕ
  pub sequence : Doc → Option (List Doc)
  pub map_required : {A : Type 0} → Text → (Doc → A × Bool → A × Bool) → Doc → A × Bool → A × Bool
  pub yamlize_string : Doc → Text × Bool → Text × Bool
  pub yamlize_uint64 : Doc → ℕ × Bool → ℕ × Bool
  pub yamlize_uint32 : Doc → ℕ × Bool → ℕ × Bool
  pub enum_cases : {A : Type 0} → List (Text × A) → Doc → A × Bool → A × Bool
  pub yamlize_sequence :
      {A : Type 0} → A → (Doc → A × Bool → A × Bool) → Doc → List A × Bool → List A × Bool

-- What a new element of a vector is: all its members are zero or empty.
abbrev pub new_location : Location
new_location = record { filepath = []; line = 0; column = 0; function = [] }

abbrev pub new_item : InvariantItem
new_item = record {
  invariant = record {
    type = location;
    location = new_location;
    value = [];
    format = c_expression;
  };
}

abbrev pub new_entry : Entry
new_entry = record { entry_type = invariant_set; content = [] }

-- The texts of the `enumCase` lines.
abbrev pub entry_type_name : EntryType → Text
entry_type_name invariant_set = codes "invariant_set"

abbrev pub invariant_type_name : InvariantType → Text
invariant_type_name location = codes "location_invariant"
invariant_type_name loop = codes "loop_invariant"

abbrev pub invariant_format_name : InvariantFormat → Text
invariant_format_name c_expression = codes "c_expression"

module _ (i : YamlInput) where
  open i use {
    Doc, map_required, yamlize_string, yamlize_uint64, yamlize_uint32, enum_cases, yamlize_sequence,
  }

  unfoldable pub read_entry_type : Doc → EntryType × Bool → EntryType × Bool
  read_entry_type = enum_cases ((codes "invariant_set", invariant_set) ∷ [])

  unfoldable pub read_invariant_type : Doc → InvariantType × Bool → InvariantType × Bool
  read_invariant_type =
      enum_cases ((codes "location_invariant", location) ∷ (codes "loop_invariant", loop) ∷ [])

  unfoldable pub read_invariant_format : Doc → InvariantFormat × Bool → InvariantFormat × Bool
  read_invariant_format = enum_cases ((codes "c_expression", c_expression) ∷ [])

  unfoldable pub read_location : Doc → Location × Bool → Location × Bool
  read_location d (l, e0) =
      let (filepath, e1) = map_required (codes "file_name") yamlize_string d (l.filepath, e0) in
      let (line, e2) = map_required (codes "line") yamlize_uint64 d (l.line, e1) in
      let (column, e3) = map_required (codes "column") yamlize_uint32 d (l.column, e2) in
      let (function, e4) = map_required (codes "function") yamlize_string d (l.function, e3) in
      (record { filepath = filepath; line = line; column = column; function = function }, e4)

  unfoldable pub read_invariant : Doc → Invariant × Bool → Invariant × Bool
  read_invariant d (v, e0) =
      let (type, e1) = map_required (codes "type") read_invariant_type d (v.type, e0) in
      let (place, e2) = map_required (codes "location") read_location d (v.location, e1) in
      let (value, e3) = map_required (codes "value") yamlize_string d (v.value, e2) in
      let (format, e4) = map_required (codes "format") read_invariant_format d (v.format, e3) in
      (record { type = type; location = place; value = value; format = format }, e4)

  unfoldable pub read_item : Doc → InvariantItem × Bool → InvariantItem × Bool
  read_item d (m, e0) =
      let (invariant, e1) = map_required (codes "invariant") read_invariant d (m.invariant, e0) in
      (record { invariant = invariant }, e1)

  unfoldable pub read_entry : Doc → Entry × Bool → Entry × Bool
  read_entry d (entry, e0) =
      let (type, e1) = map_required (codes "entry_type") read_entry_type d (entry.entry_type, e0) in
      let (content, e2) =
        map_required (codes "content") (yamlize_sequence new_item read_item) d
          (entry.content, e1) in
      (record { entry_type = type; content = content }, e2)

  -- `yaml >> out`, where `out` is empty as in `main`, and `io.error()`, which `ReadInto` does not
  -- look at.
  unfoldable pub read_entries : Doc → List Entry × Bool
  read_entries d = yamlize_sequence new_entry read_entry d ([], false)
