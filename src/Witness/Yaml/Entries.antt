-- ===== src/Witness/Yaml/Entries.antt =====
-- Which documents the mappings and sequences of src/witness.cpp read without an error.
use clang_witness_inject.Prelude.{
  ◌≡◌, refl, sym, ap, ◌∙◌, subst, Bool, false, List, [], ◌∷◌, codes, ◌↔◌, Option-cases, Bool-cases,
  inl, inr,
}
use clang_witness_inject.Witness.{invariant_set, Location, Invariant, InvariantItem, Entry}
use clang_witness_inject.Witness.Yaml.{
  YamlInput, read_location, read_invariant, read_item, read_entry, read_entries, new_item,
  new_entry,
}
use clang_witness_inject.Witness.Yaml.Laws.{read_each, IsInput}
use clang_witness_inject.Witness.Yaml.Described.{
  Each, IsSequence, DescribesLocation, DescribesInvariant, DescribesItem, DescribesEntry, IsReader,
  required_complete, required_sound, yamlize_string-IsReader, yamlize_uint64-IsReader,
  yamlize_uint32-IsReader, entry_type-IsReader, invariant_type-IsReader, invariant_format-IsReader,
}

module _ (i : YamlInput) (laws : IsInput i) where
  open i use {Doc, sequence, yamlize_sequence}

  read_location_complete :
      (a : Location) (d : Doc) (b : Location)
      → DescribesLocation i d b
      → read_location i d (a, false) ≡ (b, false)
  unfolding read_location
  read_location_complete a d b h = rw (
    required_complete i laws (yamlize_string-IsReader i laws a.filepath) (codes "file_name")
        h.file_name,
    required_complete i laws (yamlize_uint64-IsReader i laws a.line) (codes "line") h.line,
    required_complete i laws (yamlize_uint32-IsReader i laws a.column) (codes "column") h.column,
    required_complete i laws (yamlize_string-IsReader i laws a.function) (codes "function")
        h.function,
  )

  read_location_sound :
      (a : Location) (d : Doc)
      → (read_location i d (a, false)).1 ≡ false
      → DescribesLocation i d (read_location i d (a, false)).0
  unfolding read_location
  read_location_sound a d h =
      let (e3, function) =
        required_sound i laws (yamlize_string-IsReader i laws a.function) (codes "function") d _
          h in
      let (e2, column) =
        required_sound i laws (yamlize_uint32-IsReader i laws a.column) (codes "column") d _ e3 in
      let (e1, line) =
        required_sound i laws (yamlize_uint64-IsReader i laws a.line) (codes "line") d _ e2 in
      let (e0, file_name) =
        required_sound i laws (yamlize_string-IsReader i laws a.filepath) (codes "file_name") d _
          e1 in
      record { file_name = file_name; line = line; column = column; function = function }

  pub read_location-IsReader : (a : Location) → IsReader i (read_location i) (DescribesLocation i) a
  read_location-IsReader a = record {
    complete = read_location_complete a;
    sound = read_location_sound a;
  }

  read_invariant_complete :
      (a : Invariant) (d : Doc) (b : Invariant)
      → DescribesInvariant i d b
      → read_invariant i d (a, false) ≡ (b, false)
  unfolding read_invariant
  read_invariant_complete a d b h = rw (
    required_complete i laws (invariant_type-IsReader i laws a.type) (codes "type") h.type,
    required_complete i laws (read_location-IsReader a.location) (codes "location") h.place,
    required_complete i laws (yamlize_string-IsReader i laws a.value) (codes "value") h.value,
    required_complete i laws (invariant_format-IsReader i laws a.format) (codes "format") h.format,
  )

  read_invariant_sound :
      (a : Invariant) (d : Doc)
      → (read_invariant i d (a, false)).1 ≡ false
      → DescribesInvariant i d (read_invariant i d (a, false)).0
  unfolding read_invariant
  read_invariant_sound a d h =
      let (e3, format) =
        required_sound i laws (invariant_format-IsReader i laws a.format) (codes "format") d _ h in
      let (e2, value) =
        required_sound i laws (yamlize_string-IsReader i laws a.value) (codes "value") d _ e3 in
      let (e1, place) =
        required_sound i laws (read_location-IsReader a.location) (codes "location") d _ e2 in
      let (e0, type) =
        required_sound i laws (invariant_type-IsReader i laws a.type) (codes "type") d _ e1 in
      record { type = type; place = place; value = value; format = format }

  read_invariant-IsReader : (a : Invariant) → IsReader i (read_invariant i) (DescribesInvariant i) a
  read_invariant-IsReader a = record {
    complete = read_invariant_complete a;
    sound = read_invariant_sound a;
  }

  pub read_item-IsReader : (a : InvariantItem) → IsReader i (read_item i) (DescribesItem i) a
  unfolding read_item
  read_item-IsReader a = record {
    complete = λ d b h.
        rw (required_complete i laws (read_invariant-IsReader a.invariant) (codes "invariant") h);
    sound = λ d h.
        (required_sound i laws (read_invariant-IsReader a.invariant) (codes "invariant") d _ h).1;
  }

  read_each_complete :
      {A : Type 0} {read : Doc → A × Bool → A × Bool} {R : Doc → A → Type 0} {new : A}
      → IsReader i read R new
      → (ds : List Doc) (xs : List A) → Each R ds xs
      → read_each new read ds ≡ (xs, false)
  unfolding read_each
  read_each_complete r [] [] h = refl
  read_each_complete r (d ∷ ds) (x ∷ xs) h = rw (r.complete d x h.0, read_each_complete r ds xs h.1)
  read_each_complete r [] (x ∷ xs) h = elim h [ ]
  read_each_complete r (d ∷ ds) [] h = elim h [ ]

  read_each_sound :
      {A : Type 0} {read : Doc → A × Bool → A × Bool} {R : Doc → A → Type 0} {new : A}
      → IsReader i read R new
      → (ds : List Doc) → (read_each new read ds).1 ≡ false
      → Each R ds (read_each new read ds).0
  unfolding read_each
  read_each_sound r [] h = tt
  read_each_sound {read = read} {R = R} {new = new} r (d ∷ ds) h =
      elim (Bool-cases (read d (new, false)).1) [
        | inl bad ↦ cc (rw bad at h)
        | inr fine ↦ rw fine (r.sound d fine, read_each_sound r ds (rw fine at h))
      ]

  yamlize_sequence-IsReader :
      {A : Type 0} {read : Doc → A × Bool → A × Bool} {R : Doc → A → Type 0} {new : A}
      → IsReader i read R new
      → IsReader i (yamlize_sequence new read) (IsSequence i R) []
  yamlize_sequence-IsReader {read = read} {R = R} {new = new} r = record {
    complete =
        λ d xs (ds, at, h). laws.sequence_found new read d ds at ∙ read_each_complete r ds xs h;
    sound = λ d h. elim (Option-cases (sequence d)) [
      | inl absent ↦ cc (laws.sequence_wrong new read d absent)
      | inr (ds, at) ↦
          let same = laws.sequence_found new read d ds at in
          let clear : (read_each new read ds).1 ≡ false = ap (λ x. x.1) (sym same) ∙ h in
          (ds, at, subst (λ x. Each R ds x.0) (sym same) (read_each_sound r ds clear))
    ];
  }

  pub read_entry-IsReader : IsReader i (read_entry i) (DescribesEntry i) new_entry
  unfolding read_entry
  read_entry-IsReader = record {
    complete = λ d b h. rw (
      required_complete i laws (entry_type-IsReader i laws invariant_set) (codes "entry_type")
          h.entry_type,
      required_complete i laws (yamlize_sequence-IsReader (read_item-IsReader new_item))
          (codes "content") h.content,
    );
    sound = λ d h.
        let (e1, content) =
          required_sound i laws (yamlize_sequence-IsReader (read_item-IsReader new_item))
            (codes "content") d _ h in
        let (e0, entry_type) =
          required_sound i laws (entry_type-IsReader i laws invariant_set) (codes "entry_type") d _
            e1 in
        record { entry_type = entry_type; content = content };
  }

  -- A document is read without an error, and as the entries `es`, exactly if it is a sequence of one
  -- mapping for each of them, in their order, that describes it in full: each of the keys of
  -- src/witness.cpp is there, the keys of an enumeration hold the name of the value, `line` and
  -- `column` hold numbers of their widths, and `content` is a sequence of one mapping for each
  -- invariant.
  pub read_entries_iff :
      (d : Doc) (es : List Entry)
      → (read_entries i d ≡ (es, false)) ↔ IsSequence i (DescribesEntry i) d es
  unfolding read_entries
  read_entries_iff d es =
      let r = yamlize_sequence-IsReader read_entry-IsReader in
      (
        λ h.
            subst (IsSequence i (DescribesEntry i) d) (ap (λ x. x.0) h)
              (r.sound d (ap (λ x. x.1) h)),
        r.complete d es,
      )
