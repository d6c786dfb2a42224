-- ===== src/Witness/Paths/Laws.antt =====
-- What `ReadInto` leaves: absolute file names, and all else as it was read.
use clang_witness_inject.Prelude.{
  ◌≡◌, ◌≢◌, ◌⊎◌, inl, inr, refl, ap, subst, true, List, [], ◌∷◌, map, Text, All, arith,
}
use clang_witness_inject.Witness.{InvariantItem, Entry}
use clang_witness_inject.Witness.Paths.{
  Paths, found, c_str, entries, resolve_location, resolve_item, resolve_entry, read_into,
}

-- What LLVM documents of its path functions for POSIX paths: `real_path` answers with an absolute
-- path, its folder is absolute but for the root, whose folder is empty, and what a path is appended
-- to stays absolute. A path is absolute by how it begins, so it stays so when it
-- is cut at a NUL.
pub record PathLaws (p : Paths) : Type 0 where
  pub real_path-absolute : (f w : Text) → p.real_path f ≡ found w → p.is_absolute w ≡ true
  pub parent_path-absolute :
      (f w : Text)
      → p.real_path f ≡ found w
      → p.is_absolute w ≡ true
      → (p.is_absolute (p.parent_path w) ≡ true) ⊎ (p.parent_path w ≡ [])
  pub append-absolute : (d f : Text) → p.is_absolute d ≡ true → p.is_absolute (p.append d f) ≡ true
  pub c_str-absolute : (f : Text) → p.is_absolute f ≡ true → p.is_absolute (c_str f) ≡ true

-- The file lies in a folder: it is not the root.
abbrev pub HasFolder : Paths → Text → Type 0
HasFolder p file = (w : Text) → p.real_path file ≡ found w → p.parent_path w ≢ []

abbrev path_of : InvariantItem → Text
path_of m = m.invariant.location.filepath

-- Every invariant of the entry names its file by an absolute path.
abbrev pub HasAbsolute : Paths → Entry → Type 0
HasAbsolute p e = All (λ (m : InvariantItem). p.is_absolute (path_of m) ≡ true) e.content

-- An item, and an entry, without the paths of the files.
abbrev forget_item : InvariantItem → InvariantItem
forget_item m = record {
  invariant = record m.invariant { location = record m.invariant.location { filepath = [] } };
}

abbrev pub forget_paths : Entry → Entry
forget_paths e = record e { content = map forget_item e.content }

module _ (p : Paths) (w : Text) where
  resolve_item-rest : (m : InvariantItem) → forget_item (resolve_item p w m) ≡ forget_item m
  unfolding resolve_item resolve_location
  resolve_item-rest m = ground arith

  resolve_items-rest :
      (ms : List InvariantItem) → map forget_item (map (resolve_item p w) ms) ≡ map forget_item ms
  resolve_items-rest [] = refl
  resolve_items-rest (m ∷ ms) = cc (resolve_item-rest m, resolve_items-rest ms)

  resolve_entries-rest :
      (es : List Entry) → map forget_paths (map (resolve_entry p w) es) ≡ map forget_paths es
  unfolding resolve_entry
  resolve_entries-rest [] = refl
  resolve_entries-rest (e ∷ es) =
      ground (arith, resolve_items-rest e.content, resolve_entries-rest es)

  -- An absolute path is left alone.
  resolve_item-same :
      (m : InvariantItem) → p.is_absolute (path_of m) ≡ true → resolve_item p w m ≡ m
  unfolding resolve_item resolve_location
  resolve_item-same m h = ground arith

  resolve_items-same :
      (ms : List InvariantItem)
      → All (λ (m : InvariantItem). p.is_absolute (path_of m) ≡ true) ms
      → map (resolve_item p w) ms ≡ ms
  resolve_items-same [] h = refl
  resolve_items-same (m ∷ ms) h = cc (resolve_item-same m h.0, resolve_items-same ms h.1)

  resolve_entries-same :
      (es : List Entry) → All (HasAbsolute p) es → map (resolve_entry p w) es ≡ es
  unfolding resolve_entry
  resolve_entries-same [] h = refl
  resolve_entries-same (e ∷ es) h =
      ground (arith, resolve_items-same e.content h.0, resolve_entries-same es h.1)

  module _ (laws : PathLaws p) (file : Text) (real : p.real_path file ≡ found w)
      (inside : p.parent_path w ≢ []) where
    parent_absolute : p.is_absolute (p.parent_path w) ≡ true
    parent_absolute =
        elim (laws.parent_path-absolute file w real (laws.real_path-absolute file w real)) [
          | inl good ↦ good
          | inr root ↦ absurd (inside root)
        ]

    resolve_item-absolute :
        (m : InvariantItem) → p.is_absolute (path_of (resolve_item p w m)) ≡ true
    unfolding resolve_item resolve_location
    resolve_item-absolute m =
        let name = path_of m in
        let folder = p.parent_path w in
        ground (
          arith,
          parent_absolute,
          laws.append-absolute folder name,
          laws.c_str-absolute (p.append folder name),
        )

    resolve_items-absolute :
        (ms : List InvariantItem)
        → All (λ (m : InvariantItem). p.is_absolute (path_of m) ≡ true) (map (resolve_item p w) ms)
    resolve_items-absolute [] = tt
    resolve_items-absolute (m ∷ ms) = (resolve_item-absolute m, resolve_items-absolute ms)

    resolve_entries-absolute : (es : List Entry) → All (HasAbsolute p) (map (resolve_entry p w) es)
    unfolding resolve_entry
    resolve_entries-absolute [] = tt
    resolve_entries-absolute (e ∷ es) =
        (resolve_items-absolute e.content, resolve_entries-absolute es)

module _ (p : Paths) (file : Text) where
  -- A run of `ReadInto` that returns took the path of the witness file that `real_path` found.
  read_into-found :
      (out : List Entry) {es : List Entry}
      → read_into p file out ≡ entries es
      → (w : Text) × (p.real_path file ≡ found w) × (map (resolve_entry p w) out ≡ es)
  unfolding read_into
  read_into-found out h = ground arith

  -- If `ReadInto` returns, every invariant names its file by an absolute path, whatever the witness
  -- said, given that the witness file is not the root folder and that the path functions behave as
  -- LLVM documents.
  pub read_into-HasAbsolute :
      (out es : List Entry)
      → PathLaws p
      → HasFolder p file
      → read_into p file out ≡ entries es
      → All (HasAbsolute p) es
  read_into-HasAbsolute out es laws folder h =
      let (w, at, e) = read_into-found out h in
      subst (All (HasAbsolute p)) e (resolve_entries-absolute p w laws file at (folder w at) out)

  -- If `ReadInto` returns, it has changed nothing but file names: entries and invariants are as
  -- many and in the same order, with the types, formats, values, lines, columns and functions that
  -- were read.
  pub read_into-rest :
      (out es : List Entry)
      → read_into p file out ≡ entries es
      → map forget_paths es ≡ map forget_paths out
  read_into-rest out es h =
      let (w, at, e) = read_into-found out h in rw (← e) (resolve_entries-rest p w out)

  -- Resolving again changes nothing: on entries that `ReadInto` returned, a second run for any
  -- witness file whose real path is found, returns the same entries.
  read_into_again :
      (out es : List Entry) (again w : Text)
      → PathLaws p
      → HasFolder p file
      → read_into p file out ≡ entries es
      → p.real_path again ≡ found w
      → read_into p again es ≡ entries es
  unfolding read_into
  read_into_again out es again w laws folder h at =
      rw at (ap entries (resolve_entries-same p w es (read_into-HasAbsolute out es laws folder h)))
