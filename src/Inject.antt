-- ===== src/Inject.antt =====
-- src/inject.cpp and headers/witness-inject/inject.h. The calls of `Rewriter::InsertText` are the
-- output: a handler returns them as a list, in the order in which it makes them. A handler that
-- looks a node up returns `none` if the search does not end.
use clang_witness_inject.Prelude.{
  ℕ, Bool, true, false, ◌&&◌, ◌||◌, not, Option, none, some, List, [], ◌∷◌, ◌++◌, Text, codes,
  text_eq, to_string, if◌then◌else◌, ◌>>=◌,
}
use clang_witness_inject.Witness.{
  Location, InvariantType, location, loop, Invariant, InvariantItem, Entry,
}
use clang_witness_inject.Clang.{Clang, Kind, is_stmt, is_decl}
use clang_witness_inject.Locate.{Located, located, running, largest_ast_node_starting_at}
pub mod Shape
pub mod Places
pub mod Loose
pub mod Unit
pub mod Balance
pub mod Brackets

pub record WitnessInjectionConfig : Type 0 where
  pub witness : List Entry
  pub assert_fn : Text
  pub skip_switchcases : Bool

-- The parents between whose braces or behind whose label a further statement may stand.
abbrev takes_statements : Kind → Bool
takes_statements Kind.compound_stmt = true
takes_statements Kind.function_decl = true
takes_statements Kind.label_stmt = true
takes_statements Kind.default_stmt = true
takes_statements Kind.case_stmt = true
takes_statements _ = false

abbrev pub is_switch_label : Kind → Bool
is_switch_label Kind.case_stmt = true
is_switch_label Kind.default_stmt = true
is_switch_label _ = false

abbrev pub is_compound : Kind → Bool
is_compound Kind.compound_stmt = true
is_compound _ = false

module _ (c : Clang) where
  open c use {
    Loc, Node, line_col, token_start, token_end, kind, range_begin, range_end, parents, main_file,
    rparen, has_inc, body, rbrac,
  }

  -- One call of `InsertText`.
  pub record Edit : Type 0 where
    pub loc : Loc
    pub text : Text

  unfoldable pub insert_text : Loc → Text → List Edit
  insert_text l t = record { loc = l; text = t } ∷ []

  unfoldable pub inject_location : Loc → Location → List Edit
  inject_location l place =
      insert_text l (codes "/* line=")
      ++ insert_text l (to_string place.line)
      ++ insert_text l (codes ", column=")
      ++ insert_text l (to_string place.column)
      ++ insert_text l (codes " */ ")

  -- `insertSeqStmt`, from the parents of the node.
  unfoldable pub insert_seq_stmt : List Node → Bool
  insert_seq_stmt [] = true
  insert_seq_stmt (p ∷ ps) = not (takes_statements (kind p))

  module _ (config : WitnessInjectionConfig) where
    open config use {assert_fn, skip_switchcases}

    unfoldable pub braces : Node → List Edit
    braces n =
        if insert_seq_stmt (parents n)
        then insert_text (token_start (range_begin n)) (codes "{ ")
          ++ insert_text (token_end (range_end n)) (codes "; }")
        else []

    inject_at_stmt : Loc → Node → Invariant → List Edit
    inject_at_stmt l n v =
        braces n
        ++ insert_text l assert_fn
        ++ insert_text l (codes "(")
        ++ inject_location l v.location
        ++ insert_text l v.value
        ++ insert_text l (codes "); ")

    -- `begin` and `loc` differ here as they do in the source.
    inject_at_decl : Loc → Node → Invariant → List Edit
    inject_at_decl l n v =
        let begin = token_start (range_begin n) in
        insert_text l assert_fn
        ++ insert_text begin (codes "(")
        ++ inject_location l v.location
        ++ insert_text begin v.value
        ++ insert_text begin (codes "); ")

    unfoldable pub inject_invariant_at : Loc → Node → Invariant → List Edit
    unfolding inject_at_stmt inject_at_decl
    inject_invariant_at l n v =
        if is_stmt (kind n)
        then inject_at_stmt l n v
        else if is_decl (kind n)
        then inject_at_decl l n v
        else []

    unfoldable pub inject_loop_invariant_at : Node → Invariant → List Edit
    inject_loop_invariant_at b v =
        if is_compound (kind b)
        then insert_text (rbrac b) assert_fn
          ++ insert_text (rbrac b) (codes "(")
          ++ inject_location (rbrac b) v.location
          ++ insert_text (rbrac b) v.value
          ++ insert_text (rbrac b) (codes "); ")
        else inject_invariant_at (token_end (range_end b)) b v

    unfoldable pub inject_for : Node → Invariant → List Edit
    inject_for n v =
        let l = rparen n in
        (if has_inc n then insert_text l (codes ", ") else [])
        ++ insert_text l assert_fn
        ++ insert_text l (codes "(")
        ++ inject_location l v.location
        ++ insert_text l v.value
        ++ insert_text l (codes ")")

    -- The two branches for `while` and `do` read alike.
    unfoldable pub inject_while_or_do : Node → Invariant → List Edit
    inject_while_or_do n v =
        inject_loop_invariant_at (body n) v ++ inject_invariant_at (token_start (range_begin n)) n v

    unfoldable pub inject_loop_at : Kind → Node → Invariant → List Edit
    inject_loop_at Kind.for_stmt n v = inject_for n v
    inject_loop_at Kind.while_stmt n v = inject_while_or_do n v
    inject_loop_at Kind.do_stmt n v = inject_while_or_do n v
    inject_loop_at _ n v = []

    -- A handler at the node that was found. At the empty node no `get` holds, so nothing is done.
    on_located : (Node → List Edit) → Located c → Option (List Edit)
    on_located f running = none
    on_located f (located none) = some []
    on_located f (located (some n)) = some (f n)

    unfoldable pub inject_location_at : Loc → Invariant → Node → List Edit
    inject_location_at l v n =
        if skip_switchcases && is_switch_label (kind n)
        then []
        else inject_invariant_at (if is_compound (kind n) then l else token_start (range_begin n)) n
            v

    unfoldable pub inject_location_invariant : Invariant → Option (List Edit)
    unfolding on_located
    inject_location_invariant v =
        let l = line_col v.location.line v.location.column in
        on_located (inject_location_at l v) (largest_ast_node_starting_at c l)

    unfoldable pub inject_loop_invariant : Invariant → Option (List Edit)
    unfolding on_located
    inject_loop_invariant v =
        let l = line_col v.location.line v.location.column in
        on_located (λ n. inject_loop_at (kind n) n v) (largest_ast_node_starting_at c l)

    -- The `switch` of `HandleTranslationUnit`.
    unfoldable pub inject_invariant : InvariantType → Invariant → Option (List Edit)
    inject_invariant location v = inject_location_invariant v
    inject_invariant loop v = inject_loop_invariant v

    unfoldable pub inject_item : Text → InvariantItem → Option (List Edit)
    inject_item file m =
        if text_eq m.invariant.location.filepath file
        then inject_invariant m.invariant.type m.invariant
        else some []

    -- The two loops of `HandleTranslationUnit`.
    unfoldable pub inject_items : Text → List InvariantItem → Option (List Edit)
    inject_items file [] = some []
    inject_items file (m ∷ ms) =
        let rest = inject_items file ms in
        inject_item file m >>= λ es. rest >>= λ fs. some (es ++ fs)

    unfoldable pub inject_entries : Text → List Entry → Option (List Edit)
    inject_entries file [] = some []
    inject_entries file (e ∷ es) =
        let rest = inject_entries file es in
        inject_items file e.content >>= λ fs. rest >>= λ gs. some (fs ++ gs)

    unfoldable pub handle_translation_unit : Option (List Edit)
    handle_translation_unit = elim main_file [
      | none ↦ some []
      | some file ↦ inject_entries file config.witness
    ]
