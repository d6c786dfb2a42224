-- ===== src/Witness/Yaml/Laws.antt =====
-- What the traits of src/witness.cpp rely on of LLVM's `Input`.
use clang_witness_inject.Prelude.{
  ℕ, ◌≡◌, Bool, true, false, Option, none, some, List, [], ◌∷◌, Text, text_eq, if◌then◌else◌, ◌>>=◌,
}
use clang_witness_inject.Witness.Yaml.{YamlInput}

-- The first value of a key.
abbrev pub find {ℓ} : {A : Type ℓ} → Text → List (Text × A) → Option A
find k [] = none
find k ((j, v) ∷ m) = if text_eq k j then some v else find k m

-- The elements in their order, up to the first one in error.
unfoldable pub read_each : {D A : Type 0} → A → (D → A × Bool → A × Bool) → List D → List A × Bool
read_each new read [] = ([], false)
read_each new read (d ∷ ds) =
    let (a, e) = read d (new, false) in
    let (rest, f) = read_each new read ds in if e then (a ∷ [], true) else (a ∷ rest, f)

-- Behind an error `mapRequired` reads nothing. A key that is missing, and a scalar or a node of
-- another kind than is asked for, is an error. A key that is there has its value read.
pub record IsInput (i : YamlInput) : Type 1 where
  pub required_error :
      {A : Type 0} (k : Text) (read : i.Doc → A × Bool → A × Bool) (d : i.Doc) (a : A)
      → i.map_required k read d (a, true) ≡ (a, true)
  pub required_missing :
      {A : Type 0} (k : Text) (read : i.Doc → A × Bool → A × Bool) (d : i.Doc) (a : A)
      → i.required k d ≡ none
      → i.map_required k read d (a, false) ≡ (a, true)
  pub required_found :
      {A : Type 0} (k : Text) (read : i.Doc → A × Bool → A × Bool) (d e : i.Doc) (a : A)
      → i.required k d ≡ some e
      → i.map_required k read d (a, false) ≡ read e (a, false)
  pub string_found :
      (d : i.Doc) (a t : Text) → i.scalar d ≡ some t → i.yamlize_string d (a, false) ≡ (t, false)
  pub string_wrong :
      (d : i.Doc) (a : Text) → i.scalar d ≡ none → (i.yamlize_string d (a, false)).1 ≡ true
  pub uint64_found :
      (d : i.Doc) (a n : ℕ) → i.uint64 d ≡ some n → i.yamlize_uint64 d (a, false) ≡ (n, false)
  pub uint64_wrong :
      (d : i.Doc) (a : ℕ) → i.uint64 d ≡ none → (i.yamlize_uint64 d (a, false)).1 ≡ true
  pub uint32_found :
      (d : i.Doc) (a n : ℕ) → i.uint32 d ≡ some n → i.yamlize_uint32 d (a, false) ≡ (n, false)
  pub uint32_wrong :
      (d : i.Doc) (a : ℕ) → i.uint32 d ≡ none → (i.yamlize_uint32 d (a, false)).1 ≡ true
  pub enum_found :
      {A : Type 0} (cases : List (Text × A)) (d : i.Doc) (a b : A)
      → (i.scalar d >>= λ s. find s cases) ≡ some b
      → i.enum_cases cases d (a, false) ≡ (b, false)
  pub enum_wrong :
      {A : Type 0} (cases : List (Text × A)) (d : i.Doc) (a : A)
      → (i.scalar d >>= λ s. find s cases) ≡ none
      → (i.enum_cases cases d (a, false)).1 ≡ true
  pub sequence_found :
      {A : Type 0} (new : A) (read : i.Doc → A × Bool → A × Bool) (d : i.Doc) (ds : List i.Doc)
      → i.sequence d ≡ some ds
      → i.yamlize_sequence new read d ([], false) ≡ read_each new read ds
  pub sequence_wrong :
      {A : Type 0} (new : A) (read : i.Doc → A × Bool → A × Bool) (d : i.Doc)
      → i.sequence d ≡ none
      → (i.yamlize_sequence new read d ([], false)).1 ≡ true
