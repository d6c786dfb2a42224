-- ===== src/Samples/Documents.antt =====
-- YAML documents as trees, and two that are read: one in full, one up to an invariant without a value.
use clang_witness_inject.Prelude.{
  ℕ, ◌^◌, ◌≡◌, refl, ap, Bool, true, false, Option, none, some, List, [], ◌∷◌, Text, codes, text_eq,
  if◌then◌else◌, ltb, lt→ltb, ◌<◌, ◌>>=◌, ◌↔◌, arith,
}
use clang_witness_inject.Witness.{Location, loop, c_expression, InvariantItem, invariant_set, Entry}
use clang_witness_inject.Witness.Yaml.{YamlInput, read_entries}
use clang_witness_inject.Witness.Yaml.Laws.{find, read_each, IsInput}
use clang_witness_inject.Witness.Yaml.Described.{
  DescribesLocation, DescribesItem, DescribesEntry, IsSequence,
}
use clang_witness_inject.Witness.Yaml.Entries.{read_entries_iff}
use clang_witness_inject.Witness.Yaml.Partly.{read_entries_missing_value, without_value}

mutual
  data Doc : Type 0 where
    scalar : Text → Doc
    number : ℕ → Doc
    sequence : Docs → Doc
    mapping : Fields → Doc

  data Docs : Type 0 where
    nil : Docs
    cons : Doc → Docs → Docs

  data Fields : Type 0 where
    end : Fields
    field : Text → Doc → Fields → Fields

to_list : Docs → List Doc
to_list nil = []
to_list (cons d ds) = d ∷ to_list ds

fields_of : Fields → List (Text × Doc)
fields_of end = []
fields_of (field k d fs) = (k, d) ∷ fields_of fs

as_text : Doc → Option Text
as_text (scalar t) = some t
as_text _ = none

as_number : ℕ → Doc → Option ℕ
as_number bound (number n) = if ltb n bound then some n else none
as_number bound _ = none

as_list : Doc → Option (List Doc)
as_list (sequence ds) = some (to_list ds)
as_list _ = none

as_field : Text → Doc → Option Doc
as_field k (mapping fs) = find k (fields_of fs)
as_field k _ = none

as_number-below : (bound n : ℕ) → n < bound → as_number bound (number n) ≡ some n
unfolding as_number
as_number-below bound n h = rw (lt→ltb n bound h)

-- Reading what is there, and an error where nothing is.
found_or_error : {A : Type 0} → Option A → A × Bool → A × Bool
found_or_error o (a, true) = (a, true)
found_or_error none (a, false) = (a, true)
found_or_error (some b) (a, false) = (b, false)

read_key : {A : Type 0} → (Doc → A × Bool → A × Bool) → Option Doc → A × Bool → A × Bool
read_key read o (a, true) = (a, true)
read_key read none (a, false) = (a, true)
read_key read (some e) (a, false) = read e (a, false)

read_list :
    {A : Type 0}
    → A
    → (Doc → A × Bool → A × Bool)
    → Option (List Doc)
    → List A × Bool
    → List A × Bool
read_list new read o (xs, true) = (xs, true)
read_list new read none (xs, false) = (xs, true)
read_list new read (some ds) (xs, false) = read_each new read ds

found_or_error-some :
    {A : Type 0} (o : Option A) (a b : A) → o ≡ some b → found_or_error o (a, false) ≡ (b, false)
unfolding found_or_error
found_or_error-some o a b h = rw h refl

found_or_error-none :
    {A : Type 0} (o : Option A) (a : A) → o ≡ none → (found_or_error o (a, false)).1 ≡ true
unfolding found_or_error
found_or_error-none o a h = rw h refl

abbrev input : YamlInput
input = record {
  Doc = Doc;
  required = as_field;
  scalar = as_text;
  uint64 = as_number (2 ^ 64);
  uint32 = as_number (2 ^ 32);
  sequence = as_list;
  map_required = λ k read d. read_key read (as_field k d);
  yamlize_string = λ d. found_or_error (as_text d);
  yamlize_uint64 = λ d. found_or_error (as_number (2 ^ 64) d);
  yamlize_uint32 = λ d. found_or_error (as_number (2 ^ 32) d);
  enum_cases = λ cases d. found_or_error (as_text d >>= λ s. find s cases);
  yamlize_sequence = λ new read d. read_list new read (as_list d);
}

input-IsInput : IsInput input
unfolding read_key read_list
input-IsInput = record {
  required_error = λ k read d a. refl;
  required_missing = λ k read d a h. ap (λ o. read_key read o (a, false)) h;
  required_found = λ k read d e a h. ap (λ o. read_key read o (a, false)) h;
  string_found = λ d a t h. found_or_error-some (as_text d) a t h;
  string_wrong = λ d a h. found_or_error-none (as_text d) a h;
  uint64_found = λ d a n h. found_or_error-some (as_number (2 ^ 64) d) a n h;
  uint64_wrong = λ d a h. found_or_error-none (as_number (2 ^ 64) d) a h;
  uint32_found = λ d a n h. found_or_error-some (as_number (2 ^ 32) d) a n h;
  uint32_wrong = λ d a h. found_or_error-none (as_number (2 ^ 32) d) a h;
  enum_found = λ cases d a b h. found_or_error-some (as_text d >>= λ s. find s cases) a b h;
  enum_wrong = λ cases d a h. found_or_error-none (as_text d >>= λ s. find s cases) a h;
  sequence_found = λ new read d ds h. ap (λ o. read_list new read o ([], false)) h;
  sequence_wrong = λ new read d h. ap (λ o. (read_list new read o ([], false)).1) h;
}

abbrev spot : Location
spot = record { filepath = codes "a.c"; line = 4; column = 9; function = codes "main" }

abbrev spot_fields : Fields
spot_fields = field (codes "file_name") (scalar (codes "a.c")) (
    field (codes "line") (number 4)
      (field (codes "column") (number 9) (field (codes "function") (scalar (codes "main")) end)))

abbrev full_fields : Fields
full_fields = field (codes "type") (scalar (codes "loop_invariant")) (
    field (codes "location") (mapping spot_fields) (
      field (codes "value") (scalar (codes "(x < 3)"))
        (field (codes "format") (scalar (codes "c_expression")) end)))

abbrev short_fields : Fields
short_fields =
    field (codes "type") (scalar (codes "loop_invariant"))
      (field (codes "location") (mapping spot_fields) end)

abbrev item_with : Fields → Doc
item_with fs = mapping (field (codes "invariant") (mapping fs) end)

-- An entry with a key that the traits do not know.
abbrev entry_with : Docs → Doc
entry_with ms = mapping (
    field (codes "entry_type") (scalar (codes "invariant_set"))
      (field (codes "metadata") (number 2) (field (codes "content") (sequence ms) end)))

abbrev full_document : Doc
full_document = sequence (cons (entry_with (cons (item_with full_fields) nil)) nil)

abbrev short_document : Doc
short_document = sequence (
    cons (entry_with (cons (item_with full_fields) nil)) (
      cons
        (entry_with (
          cons (item_with full_fields)
            (cons (item_with short_fields) (cons (item_with full_fields) nil))))
        nil))

abbrev full_item : InvariantItem
full_item = record {
  invariant = record {
    type = loop;
    location = spot;
    value = codes "(x < 3)";
    format = c_expression;
  };
}

abbrev full_entry : Entry
full_entry = record { entry_type = invariant_set; content = full_item ∷ [] }

spot-Describes : DescribesLocation input (mapping spot_fields) spot
unfolding as_field fields_of as_text text_eq
spot-Describes = record {
  file_name = (scalar (codes "a.c"), refl, refl);
  line = (number 4, refl, as_number-below (2 ^ 64) 4 (omega arith));
  column = (number 9, refl, as_number-below (2 ^ 32) 9 (omega arith));
  function = (scalar (codes "main"), refl, refl);
}

full_item-Describes : DescribesItem input (item_with full_fields) full_item
unfolding as_field fields_of as_text text_eq
full_item-Describes = (
  mapping full_fields,
  refl,
  record {
    type = (scalar (codes "loop_invariant"), refl, refl);
    place = (mapping spot_fields, refl, spot-Describes);
    value = (scalar (codes "(x < 3)"), refl, refl);
    format = (scalar (codes "c_expression"), refl, refl);
  },
)

full_entry-Describes :
    DescribesEntry input (entry_with (cons (item_with full_fields) nil)) full_entry
unfolding as_field fields_of as_text text_eq as_list to_list
full_entry-Describes = record {
  entry_type = (scalar (codes "invariant_set"), refl, refl);
  content = (
    sequence (cons (item_with full_fields) nil),
    refl,
    (item_with full_fields ∷ [], refl, (full_item-Describes, tt)),
  );
}

read_entries_iff_example :
    (read_entries input full_document ≡ (full_entry ∷ [], false))
    ↔ IsSequence input (DescribesEntry input) full_document (full_entry ∷ [])
read_entries_iff_example = read_entries_iff input input-IsInput full_document (full_entry ∷ [])

-- Both sides hold of it.
read_full_document : read_entries input full_document ≡ (full_entry ∷ [], false)
unfolding as_list to_list
read_full_document =
    read_entries_iff_example.1
      (entry_with (cons (item_with full_fields) nil) ∷ [], refl, (full_entry-Describes, tt))

read_entries_missing_value_example : read_entries input short_document ≡ (
  full_entry
      ∷ record { entry_type = invariant_set; content = full_item ∷ without_value loop spot ∷ [] }
      ∷ [],
  true,
)
unfolding as_list to_list as_field fields_of text_eq as_text
read_entries_missing_value_example =
    read_entries_missing_value input input-IsInput short_document
      (entry_with (cons (item_with full_fields) nil) ∷ []) (full_entry ∷ [])
      (full_entry-Describes, tt)
      (entry_with (
        cons (item_with full_fields)
          (cons (item_with short_fields) (cons (item_with full_fields) nil))))
      [] refl
      (sequence (
        cons (item_with full_fields)
          (cons (item_with short_fields) (cons (item_with full_fields) nil))))
      (scalar (codes "invariant_set"), refl, refl) refl (item_with full_fields ∷ [])
      (full_item ∷ []) (full_item-Describes, tt) (item_with short_fields)
      (item_with full_fields ∷ []) refl (mapping short_fields) loop spot refl
      (scalar (codes "loop_invariant"), refl, refl) (mapping spot_fields, refl, spot-Describes) refl
