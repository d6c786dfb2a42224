-- ===== src/Inject/Unit.antt =====
-- `HandleTranslationUnit` of src/inject.cpp as a whole.
use clang_witness_inject.Prelude.{
  ◌≡◌, refl, sym, ap, ◌∙◌, Option, none, some, List, [], ◌∷◌, ◌++◌, Text, text_eq, ◌>>=◌,
  if◌then◌else◌, Bool-cases, Option-cases, inl, inr, append_assoc,
}
use clang_witness_inject.Witness.{location, loop, InvariantType, Invariant, InvariantItem, Entry}
use clang_witness_inject.Clang.{Clang, IsTree}
use clang_witness_inject.Locate.{largest_ast_node_starting_at}
use clang_witness_inject.Locate.Climb.{largest_ast_node_starting_at-IsLargest}
use clang_witness_inject.Inject.{
  WitnessInjectionConfig, Edit, on_located, inject_location_at, inject_loop_at,
  inject_location_invariant, inject_loop_invariant, inject_invariant, inject_item, inject_items,
  inject_entries, handle_translation_unit,
}

-- The items of a witness that name the file, in their order.
abbrev relevant_items : Text → List InvariantItem → List InvariantItem
relevant_items file [] = []
relevant_items file (m ∷ ms) =
    let rest = relevant_items file ms in
    if text_eq m.invariant.location.filepath file then m ∷ rest else rest

abbrev pub relevant : Text → List Entry → List InvariantItem
relevant file [] = []
relevant file (e ∷ es) = relevant_items file e.content ++ relevant file es

-- Two results, the first before the second.
abbrev join : {A : Type 0} → Option (List A) → Option (List A) → Option (List A)
join m k = m >>= λ es. k >>= λ fs. some (es ++ fs)

nil-join : {A : Type 0} (k : Option (List A)) → join (some []) k ≡ k
nil-join none = refl
nil-join (some es) = refl

join_assoc : {A : Type 0} (m k r : Option (List A)) → join (join m k) r ≡ join m (join k r)
join_assoc none k r = refl
join_assoc (some es) none r = refl
join_assoc (some es) (some fs) none = refl
join_assoc (some es) (some fs) (some gs) = ap some (append_assoc es fs gs)

module _ (c : Clang) (config : WitnessInjectionConfig) where
  -- One handler after the other.
  abbrev pub inject_all : List InvariantItem → Option (List (Edit c))
  inject_all [] = some []
  inject_all (m ∷ ms) =
      let rest = inject_all ms in
      inject_invariant c config m.invariant.type m.invariant >>= λ es.
      rest >>= λ fs. some (es ++ fs)

  inject_all-append :
      (ms ns : List InvariantItem)
      → inject_all (ms ++ ns) ≡ (inject_all ms >>= λ es. inject_all ns >>= λ fs. some (es ++ fs))
  inject_all-append [] ns = sym (nil-join (inject_all ns))
  inject_all-append (m ∷ ms) ns =
      let one = inject_invariant c config m.invariant.type m.invariant in
      ap (join one) (inject_all-append ms ns) ∙ sym (join_assoc one (inject_all ms) (inject_all ns))

  inject_items-relevant :
      (file : Text) (ms : List InvariantItem)
      → inject_items c config file ms ≡ inject_all (relevant_items file ms)
  unfolding inject_items inject_item
  inject_items-relevant file [] = refl
  inject_items-relevant file (m ∷ ms) =
      elim (Bool-cases (text_eq m.invariant.location.filepath file)) [
        | inl e ↦
            rw (e, inject_item)
              (ap (join (inject_invariant c config m.invariant.type m.invariant))
                (inject_items-relevant file ms))
        | inr e ↦
            rw (e, inject_item)
              (nil-join (inject_items c config file ms) ∙ inject_items-relevant file ms)
      ]

  inject_entries-relevant :
      (file : Text) (es : List Entry)
      → inject_entries c config file es ≡ inject_all (relevant file es)
  unfolding inject_entries
  inject_entries-relevant file [] = refl
  inject_entries-relevant file (e ∷ es) =
      rw (inject_items-relevant file e.content, inject_entries-relevant file es)
        (sym (inject_all-append (relevant_items file e.content) (relevant file es)))

  -- The handler of a translation unit does what the handlers of those invariants do that name the
  -- main file, one after the other in the order of the witness; an invariant for another file has
  -- no effect.
  pub handle_translation_unit-relevant :
      (file : Text)
      → c.main_file ≡ some file
      → handle_translation_unit c config ≡ inject_all (relevant file config.witness)
  unfolding handle_translation_unit
  handle_translation_unit-relevant file h =
      rw (h, handle_translation_unit) (inject_entries-relevant file config.witness)

  handle_translation_unit-no_file : c.main_file ≡ none → handle_translation_unit c config ≡ some []
  unfolding handle_translation_unit
  handle_translation_unit-no_file h = rw (h, handle_translation_unit) refl

  module _ (tree : IsTree c) where
    -- A search for a node ends, so a handler that starts with one does.
    on_located-ends :
        (f : c.Node → List (Edit c)) (l : c.Loc)
        → (es : List (Edit c)) × (on_located c config f (largest_ast_node_starting_at c l)
            ≡ some es)
    unfolding on_located
    on_located-ends f l = elim (largest_ast_node_starting_at-IsLargest c l tree) [
      | inl (e, _) ↦ ([], rw e refl)
      | inr (_, r, _, _, e, _) ↦ (f r, rw e refl)
    ]

    inject_invariant-ends :
        (t : InvariantType) (v : Invariant)
        → (es : List (Edit c)) × (inject_invariant c config t v ≡ some es)
    unfolding inject_invariant inject_location_invariant inject_loop_invariant
    inject_invariant-ends location v = on_located-ends (inject_location_at c config _ v) _
    inject_invariant-ends loop v = on_located-ends (λ n. inject_loop_at c config (c.kind n) n v) _

    inject_all-ends : (ms : List InvariantItem) → (es : List (Edit c)) × (inject_all ms ≡ some es)
    inject_all-ends [] = ([], refl)
    inject_all-ends (m ∷ ms) =
        let (es, h) = inject_invariant-ends m.invariant.type m.invariant in
        let (fs, k) = inject_all-ends ms in (es ++ fs, rw (h, k) refl)

    -- On a finite syntax tree the handler of a translation unit ends, whatever the witness says.
    pub handle_translation_unit-ends :
        (es : List (Edit c)) × (handle_translation_unit c config ≡ some es)
    handle_translation_unit-ends = elim (Option-cases c.main_file) [
      | inl e ↦ ([], handle_translation_unit-no_file e)
      | inr (file, e) ↦
          let (es, h) = inject_all-ends (relevant file config.witness) in
          (es, handle_translation_unit-relevant file e ∙ h)
    ]
