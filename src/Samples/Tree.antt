-- ===== src/Samples/Tree.antt =====
-- The tree of `void f() { while (c) x++; }`: the translation unit, the function, its body, the loop
-- and the expression are the nodes 0 to 4, each the parent of the next. A location is a column.
mod Injected
use clang_witness_inject.Prelude.{
  ℕ, zero, suc, ◌+◌, ◌<◌, ◌≤◌, ◌≡◌, refl, Bool, true, false, Option, none, some, List, [], ◌∷◌,
  ◌++◌, In, here, there, Text, codes, ltb, ◌==◌, ==_iff, if◌then◌else◌, arith, ◌⊎◌, inl, inr,
  to_string, text_eq, All, ◌&&◌,
}
use clang_witness_inject.Witness.{
  Invariant, InvariantItem, loop, location, c_expression, Entry, invariant_set,
}
use clang_witness_inject.Clang.{Clang, Kind, IsTree, HasSameLoc}
use clang_witness_inject.Locate.{
  misses, length_of, consider, traverse_from, smallest_container, to_file_loc, file_token_end,
  file_offset, token_begin, node_begin, find_parent, climbs_to, first_climb, climb, locate_from,
  largest_ast_node_starting_at, located, begin_of, end_of,
}
use clang_witness_inject.Locate.Smallest.{Covers, Smallest, smallest_container-Smallest}
use clang_witness_inject.Locate.Climb.{IsLargest, largest_ast_node_starting_at-IsLargest}
use clang_witness_inject.Inject.{
  WitnessInjectionConfig, Edit, insert_text, inject_location, inject_location_at, inject_loop_at,
  inject_loop_invariant_at, is_switch_label, handle_translation_unit, inject_entries, inject_items,
  inject_item, inject_invariant, inject_location_invariant, inject_loop_invariant,
  inject_while_or_do, inject_invariant_at, braces, insert_seq_stmt,
}
use clang_witness_inject.Inject.Shape.{text_at, at, assertion}
use clang_witness_inject.Inject.Places.{
  expected_location, expected_loop, text_at-inject_location_at, text_at-inject_loop_at,
}
use clang_witness_inject.Inject.Loose.{IsLoose, call_behind_brace}
use clang_witness_inject.Inject.Unit.{
  relevant, inject_all, handle_translation_unit-relevant, handle_translation_unit-ends,
}
use clang_witness_inject.Inject.Balance.{paren, IsEven, AreEven, count, total}
use clang_witness_inject.Inject.Brackets.{EntriesEven, handle_translation_unit-AreEven}

kind_of : ℕ → Kind
kind_of zero = Kind.other
kind_of (suc zero) = Kind.function_decl
kind_of (suc (suc zero)) = Kind.compound_stmt
kind_of (suc (suc (suc zero))) = Kind.while_stmt
kind_of (suc (suc (suc (suc n)))) = Kind.expr

-- The columns of the first and of the last token; 0 is no location.
begin_col : ℕ → ℕ
begin_col zero = 1
begin_col (suc zero) = 1
begin_col (suc (suc zero)) = 10
begin_col (suc (suc (suc zero))) = 12
begin_col (suc (suc (suc (suc zero)))) = 22
begin_col (suc (suc (suc (suc (suc n))))) = 0

end_col : ℕ → ℕ
end_col zero = 27
end_col (suc zero) = 27
end_col (suc (suc zero)) = 27
end_col (suc (suc (suc n))) = 23

parents_of : ℕ → List ℕ
parents_of zero = []
parents_of (suc n) = n ∷ []

abbrev clang : Clang
clang = record {
  Loc = ℕ;
  Node = ℕ;
  same_loc = λ k l. k == l;
  invalid = 0;
  is_invalid = λ l. l == 0;
  is_macro_id = λ l. false;
  expansion_loc = λ l. l;
  line_col = λ line column. column;
  is_before = ltb;
  offset = λ l. l;
  token_start = λ l. l;
  token_end = λ l. l + 2;
  next_token = λ l. some l;
  kind = kind_of;
  range_begin = begin_col;
  range_end = end_col;
  parents = parents_of;
  visited = 0 ∷ 1 ∷ 2 ∷ 3 ∷ 4 ∷ [];
  main_file = some (codes "a.c");
  rparen = λ n. 20;
  has_inc = λ n. false;
  body = λ n. suc n;
  rbrac = end_col;
  depth = λ n. n;
}

rises : (n p : ℕ) → In p (parents_of n) → p < n
unfolding parents_of
rises zero p i = elim i [ ]
rises (suc n) p here = omega arith
rises (suc n) p (there i) = elim i [ ]

abbrev tree : IsTree clang
tree = record { rises = rises }

abbrev same : HasSameLoc clang
same = record { same_loc_iff = ==_iff }

largest_ast_node_starting_at-IsLargest_example :
    ((largest_ast_node_starting_at clang 12 ≡ located none)
      × ((clang.is_invalid (token_begin clang 12) ≡ true)
          ⊎ (smallest_container clang (token_begin clang 12) ≡ none)))
    ⊎ ((s : ℕ) × (r : ℕ) × (clang.is_invalid (token_begin clang 12) ≡ false)
        × (smallest_container clang (token_begin clang 12) ≡ some s)
        × (largest_ast_node_starting_at clang 12 ≡ located (some r))
        × IsLargest clang (token_begin clang 12) s r)
largest_ast_node_starting_at-IsLargest_example =
    largest_ast_node_starting_at-IsLargest clang 12 tree

solid : (n : ℕ) → Covers clang (to_file_loc clang 12) n → 0 < length_of clang n
unfolding length_of file_offset to_file_loc file_token_end begin_col end_col
solid zero h = omega arith
solid (suc zero) h = omega arith
solid (suc (suc zero)) h = omega arith
solid (suc (suc (suc zero))) h = omega arith
solid (suc (suc (suc (suc zero)))) h = omega arith
solid (suc (suc (suc (suc (suc n))))) h = absurd (ground (arith, h.begin_known))

smallest_container-Smallest_example :
    Smallest clang (to_file_loc clang 12) (smallest_container clang 12)
smallest_container-Smallest_example = smallest_container-Smallest clang 12 solid

-- The loop is found at its first token.
finds_loop : largest_ast_node_starting_at clang 12 ≡ located (some 3)
unfolding largest_ast_node_starting_at token_begin smallest_container traverse_from consider misses
    length_of file_offset to_file_loc file_token_end begin_col end_col node_begin climb first_climb
    climbs_to parents_of kind_of
finds_loop = refl
