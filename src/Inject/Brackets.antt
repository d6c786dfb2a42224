-- ===== src/Inject/Brackets.antt =====
-- Brackets over all of `HandleTranslationUnit` of src/inject.cpp.
use clang_witness_inject.Prelude.{
  ◌≡◌, refl, subst, Option, none, some, List, [], ◌∷◌, ◌++◌, Text, All, Bool-cases, inl, inr, ◌>>=◌,
  text_eq, Option-cases,
}
use clang_witness_inject.Witness.{location, loop, InvariantType, Invariant, InvariantItem, Entry}
use mathlib.Core.Option.{some-injective}
use clang_witness_inject.Clang.{Clang}
use clang_witness_inject.Locate.{Located, located, running}
use clang_witness_inject.Inject.{
  WitnessInjectionConfig, Edit, on_located, inject_location_invariant, inject_loop_invariant,
  inject_invariant, inject_item, inject_items, inject_entries, handle_translation_unit,
}
use clang_witness_inject.Inject.Balance.{
  Bracket, IsEven, AreEven, AreEven-append, none-AreEven, location_at-AreEven, loop_at-AreEven,
}

-- The value of every invariant of the witness has as many opening as closing brackets.
abbrev ItemsEven : Bracket → List InvariantItem → Type 0
ItemsEven k = All (λ (m : InvariantItem). IsEven k m.invariant.value)

abbrev pub EntriesEven : Bracket → List Entry → Type 0
EntriesEven k = All (λ (e : Entry). ItemsEven k e.content)

module _ (c : Clang) (config : WitnessInjectionConfig) (k : Bracket)
    (fn : IsEven k config.assert_fn) where
  -- Whatever a handler returns is even.
  abbrev Yields : Option (List (Edit c)) → Type 0
  Yields o = (es : List (Edit c)) → o ≡ some es → AreEven k es

  -- The result itself.
  known-Yields : (xs : List (Edit c)) → AreEven k xs → Yields (some xs)
  known-Yields xs even es h = subst (AreEven {c = c} k) (some-injective xs es h) even

  empty-Yields : Yields (some [])
  empty-Yields = known-Yields [] (none-AreEven c config k fn)

  located-Yields :
      (f : c.Node → List (Edit c)) (r : Located c)
      → ((n : c.Node) → AreEven k (f n))
      → Yields (on_located c config f r)
  unfolding on_located
  located-Yields f running even es h = cc
  located-Yields f (located none) even es h = empty-Yields es h
  located-Yields f (located (some n)) even es h = known-Yields (f n) (even n) es h

  invariant-Yields :
      (t : InvariantType) (v : Invariant)
      → IsEven k v.value
      → Yields (inject_invariant c config t v)
  unfolding inject_invariant inject_location_invariant inject_loop_invariant
  invariant-Yields location v even = located-Yields _ _ (location_at-AreEven c config k fn v even _)
  invariant-Yields loop v even =
      located-Yields _ _ (λ n. loop_at-AreEven c config k fn v even (c.kind n) n)

  join-Yields :
      (m r : Option (List (Edit c)))
      → Yields m
      → Yields r
      → Yields (m >>= λ es. r >>= λ fs. some (es ++ fs))
  join-Yields none r p q es h = cc
  join-Yields (some xs) none p q es h = cc
  join-Yields (some xs) (some ys) p q es h =
      known-Yields (xs ++ ys) (AreEven-append c k xs ys (p xs refl) (q ys refl)) es h

  item-Yields :
      (file : Text) (m : InvariantItem)
      → IsEven k m.invariant.value
      → Yields (inject_item c config file m)
  unfolding inject_item
  item-Yields file m even = elim (Bool-cases (text_eq m.invariant.location.filepath file)) [
    | inl e ↦ rw (e, inject_item) (invariant-Yields m.invariant.type m.invariant even)
    | inr e ↦ rw (e, inject_item) empty-Yields
  ]

  items-Yields :
      (file : Text) (ms : List InvariantItem)
      → ItemsEven k ms
      → Yields (inject_items c config file ms)
  unfolding inject_items
  items-Yields file [] even = empty-Yields
  items-Yields file (m ∷ ms) even =
      join-Yields (inject_item c config file m) (inject_items c config file ms)
        (item-Yields file m even.0) (items-Yields file ms even.1)

  entries-Yields :
      (file : Text) (es : List Entry) → EntriesEven k es → Yields (inject_entries c config file es)
  unfolding inject_entries
  entries-Yields file [] even = empty-Yields
  entries-Yields file (e ∷ es) even =
      join-Yields (inject_items c config file e.content) (inject_entries c config file es)
        (items-Yields file e.content even.0) (entries-Yields file es even.1)

  -- If the name of the assert function and the value of every invariant in the witness have as many
  -- opening as closing brackets of a kind (braces, or parentheses), then so have the texts that
  -- the handler of a translation unit inserts, taken together.
  pub handle_translation_unit-AreEven :
      (es : List (Edit c))
      → EntriesEven k config.witness
      → handle_translation_unit c config ≡ some es
      → AreEven k es
  unfolding handle_translation_unit
  handle_translation_unit-AreEven es even h = elim (Option-cases c.main_file) [
    | inl e ↦ empty-Yields es (rw (e, handle_translation_unit) at h)
    | inr (file, e) ↦
        entries-Yields file config.witness even es (rw (e, handle_translation_unit) at h)
  ]
