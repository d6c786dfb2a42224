-- ===== src/Witness/Yaml/Partly.antt =====
-- What a document with an error leaves in `out`, which src/witness.cpp goes on with.
use clang_witness_inject.Prelude.{
  ◌≡◌, refl, ◌∙◌, Bool, true, false, none, some, List, [], ◌∷◌, ◌++◌, codes,
}
use clang_witness_inject.Witness.{
  Location, InvariantType, c_expression, InvariantItem, invariant_set, Entry,
}
use clang_witness_inject.Witness.Yaml.{
  YamlInput, read_invariant, read_invariant_format, read_item, read_entry, read_entries, new_item,
  new_entry, invariant_type_name, entry_type_name,
}
use clang_witness_inject.Witness.Yaml.Laws.{read_each, IsInput}
use clang_witness_inject.Witness.Yaml.Described.{
  Each, Holds, IsNamed, DescribesLocation, DescribesItem, DescribesEntry, IsReader,
  required_complete, entry_type-IsReader, invariant_type-IsReader,
}
use clang_witness_inject.Witness.Yaml.Entries.{
  read_location-IsReader, read_item-IsReader, read_entry-IsReader,
}

-- The item that is left where `value` is missing.
abbrev pub without_value : InvariantType → Location → InvariantItem
without_value type place = record {
  invariant = record { type = type; location = place; value = []; format = c_expression };
}

module _ (i : YamlInput) (laws : IsInput i) where
  open i use {Doc, required, sequence}

  read_each_stops :
      {A : Type 0} {read : Doc → A × Bool → A × Bool} {R : Doc → A → Type 0} {new : A}
      → IsReader i read R new
      → (ds : List Doc) (xs : List A) → Each R ds xs
      → (d : Doc) (x : A) → read d (new, false) ≡ (x, true)
      → (later : List Doc) → read_each new read (ds ++ (d ∷ later)) ≡ (xs ++ (x ∷ []), true)
  unfolding read_each
  read_each_stops r [] [] h d x stops later = rw stops refl
  read_each_stops r (e ∷ ds) (y ∷ ys) h d x stops later =
      rw (r.complete e y h.0, read_each_stops r ds ys h.1 d x stops later)
  read_each_stops r [] (y ∷ ys) h d x stops later = elim h [ ]
  read_each_stops r (e ∷ ds) [] h d x stops later = elim h [ ]

  read_invariant_missing_value :
      (v : Doc) (type : InvariantType) (place : Location)
      → Holds i (IsNamed i invariant_type_name) (codes "type") v type
      → Holds i (DescribesLocation i) (codes "location") v place
      → required (codes "value") v ≡ none
      → read_invariant i v (new_item.invariant, false)
        ≡ ((without_value type place).invariant, true)
  unfolding read_invariant
  read_invariant_missing_value v type place has_type has_place missing = rw (
    required_complete i laws (invariant_type-IsReader i laws new_item.invariant.type) (codes "type")
        has_type,
    required_complete i laws (read_location-IsReader i laws new_item.invariant.location)
        (codes "location") has_place,
    laws.required_missing (codes "value") i.yamlize_string v [] missing,
    laws.required_error (codes "format") (read_invariant_format i) v c_expression,
  )

  read_item_missing_value :
      (m v : Doc) (type : InvariantType) (place : Location)
      → required (codes "invariant") m ≡ some v
      → Holds i (IsNamed i invariant_type_name) (codes "type") v type
      → Holds i (DescribesLocation i) (codes "location") v place
      → required (codes "value") v ≡ none
      → read_item i m (new_item, false) ≡ (without_value type place, true)
  unfolding read_item
  read_item_missing_value m v type place at has_type has_place missing = rw (
    laws.required_found (codes "invariant") (read_invariant i) m v new_item.invariant at,
    read_invariant_missing_value v type place has_type has_place missing,
  )

  read_entry_stops :
      (d content : Doc)
      → Holds i (IsNamed i entry_type_name) (codes "entry_type") d invariant_set
      → required (codes "content") d ≡ some content
      → (ms : List Doc) (items : List InvariantItem) → Each (DescribesItem i) ms items
      → (m : Doc) (x : InvariantItem) → read_item i m (new_item, false) ≡ (x, true)
      → (later : List Doc) → sequence content ≡ some (ms ++ (m ∷ later))
      → read_entry i d (new_entry, false)
        ≡ (record { entry_type = invariant_set; content = items ++ (x ∷ []) }, true)
  unfolding read_entry
  read_entry_stops d content is_set at ms items described m x stops later has = rw (
    required_complete i laws (entry_type-IsReader i laws invariant_set) (codes "entry_type")
        {b = invariant_set} is_set,
    laws.required_found (codes "content") (i.yamlize_sequence new_item (read_item i)) d content
        new_entry.content at,
    laws.sequence_found new_item (read_item i) content (ms ++ (m ∷ later)) has,
    read_each_stops (read_item-IsReader i laws new_item) ms items described m x stops later,
  )

  -- Where an invariant of a document has its `type` and its `location`, but no `value`, and all
  -- before it, the entries and the items of its own entry, describe `es` and `items`, the read
  -- reports an error and leaves those entries and items, then an item with that type and location
  -- and an empty value, and nothing of what comes behind.
  pub read_entries_missing_value :
      (d : Doc) (ds : List Doc) (es : List Entry)
      → Each (DescribesEntry i) ds es
      → (e : Doc) (behind : List Doc) → sequence d ≡ some (ds ++ (e ∷ behind))
      → (content : Doc) → Holds i (IsNamed i entry_type_name) (codes "entry_type") e invariant_set
      → required (codes "content") e ≡ some content
      → (ms : List Doc) (items : List InvariantItem) → Each (DescribesItem i) ms items
      → (m : Doc) (later : List Doc) → sequence content ≡ some (ms ++ (m ∷ later))
      → (v : Doc) (type : InvariantType) (place : Location)
      → required (codes "invariant") m ≡ some v
      → Holds i (IsNamed i invariant_type_name) (codes "type") v type
      → Holds i (DescribesLocation i) (codes "location") v place
      → required (codes "value") v ≡ none
      → read_entries i d ≡ (
        es
            ++ (record {
              entry_type = invariant_set;
              content = items ++ (without_value type place ∷ []);
            }
                ∷ []),
        true,
      )
  unfolding read_entries
  read_entries_missing_value d ds es before e behind top content is_set at ms items described m
        later has v type place inside has_type has_place missing =
      let stops = read_item_missing_value m v type place inside has_type has_place missing in
      laws.sequence_found new_entry (read_entry i) d _ top
      ∙ read_each_stops (read_entry-IsReader i laws) ds es before e _
          (read_entry_stops e content is_set at ms items described m _ stops later has) behind
