-- ===== src/Witness/Yaml/Described.antt =====
-- Which documents the traits of src/witness.cpp read without an error, and as what.
use clang_witness_inject.Prelude.{
  ℕ, ◌≡◌, refl, sym, ap, ◌∙◌, subst, Bool, true, false, Option, none, some, List, [], ◌∷◌, Text,
  codes, text_eq, text_eq_sound, ◌>>=◌, Bool-cases, Option-cases, inl, inr, arith, All,
}
use clang_witness_inject.Witness.{
  Location, InvariantType, location, loop, InvariantFormat, c_expression, Invariant, InvariantItem,
  EntryType, invariant_set, Entry,
}
use clang_witness_inject.Witness.Yaml.{
  YamlInput, read_entry_type, read_invariant_type, read_invariant_format, entry_type_name,
  invariant_type_name, invariant_format_name,
}
use clang_witness_inject.Witness.Yaml.Laws.{find, IsInput}

-- The lists are as long as one another, and the relation holds at each place.
abbrev pub Each : {A B : Type 0} → (A → B → Type 0) → List A → List B → Type 0
Each R [] [] = Unit
Each R [] (b ∷ bs) = ⊥
Each R (a ∷ xs) [] = ⊥
Each R (a ∷ xs) (b ∷ bs) = R a b × Each R xs bs

>>=-eq-some :
    {A B : Type 0} (o : Option A) (f : A → Option B) {b : B}
    → (o >>= f) ≡ some b
    → (a : A) × (o ≡ some a) × (f a ≡ some b)
>>=-eq-some none f h = ground arith
>>=-eq-some (some a) f h = (a, refl, h)

find-name :
    {A : Type 0} (name : A → Text) (cases : List (Text × A))
    → All (λ (c : Text × A). c.0 ≡ name c.1) cases
    → (s : Text) (t : A) → find s cases ≡ some t
    → s ≡ name t
find-name name [] all s t h = ground arith
find-name name ((k, v) ∷ cases) all s t h = elim (Bool-cases (text_eq s k)) [
  | inl e ↦ text_eq_sound s k e ∙ all.0 ∙ ap name (ground (arith, e))
  | inr e ↦ find-name name cases all.1 s t (rw e at h)
]

module _ (i : YamlInput) where
  open i use {Doc, required, scalar, uint64, uint32, sequence}

  -- Key `k` of the document holds `a`.
  abbrev pub Holds : {A : Type 0} → (Doc → A → Type 0) → Text → Doc → A → Type 0
  Holds R k d a = (e : Doc) × (required k d ≡ some e) × R e a

  abbrev pub IsText : Doc → Text → Type 0
  IsText d t = scalar d ≡ some t

  abbrev pub IsUint64 : Doc → ℕ → Type 0
  IsUint64 d n = uint64 d ≡ some n

  abbrev pub IsUint32 : Doc → ℕ → Type 0
  IsUint32 d n = uint32 d ≡ some n

  -- The scalar is the name of the value.
  abbrev pub IsNamed : {A : Type 0} → (A → Text) → Doc → A → Type 0
  IsNamed name d a = scalar d ≡ some (name a)

  abbrev pub IsSequence : {A : Type 0} → (Doc → A → Type 0) → Doc → List A → Type 0
  IsSequence R d xs = (ds : List Doc) × (sequence d ≡ some ds) × Each R ds xs

  pub record DescribesLocation (d : Doc) (l : Location) : Type 0 where
    pub file_name : Holds IsText (codes "file_name") d l.filepath
    pub line : Holds IsUint64 (codes "line") d l.line
    pub column : Holds IsUint32 (codes "column") d l.column
    pub function : Holds IsText (codes "function") d l.function

  pub record DescribesInvariant (d : Doc) (v : Invariant) : Type 0 where
    pub type : Holds (IsNamed invariant_type_name) (codes "type") d v.type
    pub place : Holds DescribesLocation (codes "location") d v.location
    pub value : Holds IsText (codes "value") d v.value
    pub format : Holds (IsNamed invariant_format_name) (codes "format") d v.format

  abbrev pub DescribesItem : Doc → InvariantItem → Type 0
  DescribesItem d m = Holds DescribesInvariant (codes "invariant") d m.invariant

  pub record DescribesEntry (d : Doc) (e : Entry) : Type 0 where
    pub entry_type : Holds (IsNamed entry_type_name) (codes "entry_type") d e.entry_type
    pub content : Holds (IsSequence DescribesItem) (codes "content") d e.content

  -- Reading from `a` succeeds exactly at the documents that describe a value, and gives that value.
  pub record IsReader {A : Type 0} (read : Doc → A × Bool → A × Bool) (R : Doc → A → Type 0) (a : A)
      : Type 0 where
    pub complete : (d : Doc) (b : A) → R d b → read d (a, false) ≡ (b, false)
    pub sound : (d : Doc) → (read d (a, false)).1 ≡ false → R d (read d (a, false)).0

  module _ (laws : IsInput i) where
    pub required_complete :
        {A : Type 0} {read : Doc → A × Bool → A × Bool} {R : Doc → A → Type 0} {a : A}
        → IsReader read R a
        → (k : Text) {d : Doc} {b : A} → Holds R k d b
        → i.map_required k read d (a, false) ≡ (b, false)
    required_complete {read = read} {a = a} r k {d = d} {b = b} (e, at, h) =
        laws.required_found k read d e a at ∙ r.complete e b h

    pub required_sound :
        {A : Type 0} {read : Doc → A × Bool → A × Bool} {R : Doc → A → Type 0} {a : A}
        → IsReader read R a
        → (k : Text) (d : Doc) (e : Bool) → (i.map_required k read d (a, e)).1 ≡ false
        → (e ≡ false) × Holds R k d (i.map_required k read d (a, e)).0
    required_sound {read = read} {a = a} r k d true h =
        cc (ap (λ x. x.1) (laws.required_error k read d a))
    required_sound {read = read} {R = R} {a = a} r k d false h =
        elim (Option-cases (required k d)) [
          | inl absent ↦ cc (ap (λ x. x.1) (laws.required_missing k read d a absent))
          | inr (e, at) ↦
              let same = laws.required_found k read d e a at in
              let clear : (read e (a, false)).1 ≡ false = ap (λ x. x.1) (sym same) ∙ h in
              (refl, (e, at, subst (λ x. R e x.0) (sym same) (r.sound e clear)))
        ]

    pub yamlize_string-IsReader : (a : Text) → IsReader i.yamlize_string IsText a
    yamlize_string-IsReader a = record {
      complete = λ d t h. laws.string_found d a t h;
      sound = λ d h. elim (Option-cases (scalar d)) [
        | inl absent ↦ cc (laws.string_wrong d a absent)
        | inr (t, at) ↦ at ∙ ap (λ x. some x.0) (sym (laws.string_found d a t at))
      ];
    }

    pub yamlize_uint64-IsReader : (a : ℕ) → IsReader i.yamlize_uint64 IsUint64 a
    yamlize_uint64-IsReader a = record {
      complete = λ d n h. laws.uint64_found d a n h;
      sound = λ d h. elim (Option-cases (uint64 d)) [
        | inl absent ↦ cc (laws.uint64_wrong d a absent)
        | inr (n, at) ↦ at ∙ ap (λ x. some x.0) (sym (laws.uint64_found d a n at))
      ];
    }

    pub yamlize_uint32-IsReader : (a : ℕ) → IsReader i.yamlize_uint32 IsUint32 a
    yamlize_uint32-IsReader a = record {
      complete = λ d n h. laws.uint32_found d a n h;
      sound = λ d h. elim (Option-cases (uint32 d)) [
        | inl absent ↦ cc (laws.uint32_wrong d a absent)
        | inr (n, at) ↦ at ∙ ap (λ x. some x.0) (sym (laws.uint32_found d a n at))
      ];
    }

    enum-IsReader :
        {A : Type 0} (name : A → Text) (cases : List (Text × A))
        → ((b : A) → find (name b) cases ≡ some b)
        → All (λ (c : Text × A). c.0 ≡ name c.1) cases
        → (a : A) → IsReader (i.enum_cases cases) (IsNamed name) a
    enum-IsReader name cases found all a = record {
      complete =
          λ d b h. laws.enum_found cases d a b (ap (λ x. x >>= λ s. find s cases) h ∙ found b);
      sound = λ d h. elim (Option-cases (scalar d >>= λ s. find s cases)) [
        | inl absent ↦ cc (laws.enum_wrong cases d a absent)
        | inr (b, at) ↦
            let (s, e, f) = >>=-eq-some (scalar d) _ at in
            e
            ∙ ap some (
                find-name name cases all s b f
                ∙ ap (λ x. name x.0) (sym (laws.enum_found cases d a b at)))
      ];
    }

    entry_type_found :
        (b : EntryType)
        → find (entry_type_name b) ((codes "invariant_set", invariant_set) ∷ []) ≡ some b
    unfolding text_eq
    entry_type_found invariant_set = refl

    invariant_type_found :
        (b : InvariantType)
        → find
            (invariant_type_name b)
            ((codes "location_invariant", location) ∷ (codes "loop_invariant", loop) ∷ [])
          ≡ some b
    unfolding text_eq
    invariant_type_found location = refl
    invariant_type_found loop = refl

    invariant_format_found :
        (b : InvariantFormat)
        → find (invariant_format_name b) ((codes "c_expression", c_expression) ∷ []) ≡ some b
    unfolding text_eq
    invariant_format_found c_expression = refl

    pub entry_type-IsReader :
        (a : EntryType) → IsReader (read_entry_type i) (IsNamed entry_type_name) a
    unfolding read_entry_type text_eq
    entry_type-IsReader a = enum-IsReader entry_type_name _ entry_type_found (refl, tt) a

    pub invariant_type-IsReader :
        (a : InvariantType) → IsReader (read_invariant_type i) (IsNamed invariant_type_name) a
    unfolding read_invariant_type text_eq
    invariant_type-IsReader a =
        enum-IsReader invariant_type_name _ invariant_type_found (refl, (refl, tt)) a

    pub invariant_format-IsReader :
        (a : InvariantFormat) → IsReader (read_invariant_format i) (IsNamed invariant_format_name) a
    unfolding read_invariant_format text_eq
    invariant_format-IsReader a =
        enum-IsReader invariant_format_name _ invariant_format_found (refl, tt) a
