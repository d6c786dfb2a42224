-- ===== src/Samples/Tree/Injected.antt =====
-- What is written for invariants at the loop of the sample tree.
use clang_witness_inject.Prelude.{
  ◌≡◌, refl, false, some, List, [], ◌∷◌, ◌++◌, codes, if◌then◌else◌, inl, ◌&&◌, ◌+◌,
}
use clang_witness_inject.Witness.{Invariant, loop, c_expression, invariant_set}
use clang_witness_inject.Inject.{
  WitnessInjectionConfig, Edit, inject_location_at, inject_loop_at, inject_loop_invariant_at,
  is_switch_label, handle_translation_unit,
}
use clang_witness_inject.Inject.Shape.{text_at, assertion}
use clang_witness_inject.Inject.Places.{
  expected_location, expected_loop, text_at-inject_location_at, text_at-inject_loop_at,
}
use clang_witness_inject.Inject.Loose.{IsLoose, call_behind_brace}
use clang_witness_inject.Inject.Unit.{
  relevant, inject_all, handle_translation_unit-relevant, handle_translation_unit-ends,
}
use clang_witness_inject.Inject.Balance.{paren, IsEven, AreEven, count}
use clang_witness_inject.Inject.Brackets.{EntriesEven, handle_translation_unit-AreEven}
use clang_witness_inject.Samples.Tree.{clang, tree, same, kind_of, parents_of, begin_col, end_col}

abbrev invariant : Invariant
invariant = record {
  type = loop;
  location = record { filepath = codes "a.c"; line = 4; column = 12; function = codes "f" };
  value = codes "x < 3";
  format = c_expression;
}

abbrev config : WitnessInjectionConfig
config = record {
  witness =
      record { entry_type = invariant_set; content = record { invariant = invariant } ∷ [] } ∷ [];
  assert_fn = codes "assert";
  skip_switchcases = false;
}

location_example : text_at clang 12 (inject_location_at clang config 12 invariant 3) ≡ (
    if false && is_switch_label (kind_of 3)
    then []
    else expected_location clang config invariant 12 12 3)
location_example = text_at-inject_location_at clang config invariant 12 12 3

loop_example :
    text_at clang 25 (inject_loop_at clang config (kind_of 3) 3 invariant)
    ≡ expected_loop clang config invariant 25 (kind_of 3) 3
unfolding kind_of
loop_example = text_at-inject_loop_at clang config invariant 25 3 refl

loose : IsLoose clang config invariant 4 3
unfolding kind_of parents_of
loose = record { rest = []; parents_are = refl; loop = inl refl; statement = refl; single = refl }

-- At column 25, behind `x++`, the text is `; }assert(...); `.
call_behind_brace_example :
    text_at clang (end_col 4 + 2) (inject_loop_invariant_at clang config 4 invariant)
    ≡ codes "; }" ++ assertion config invariant
unfolding begin_col end_col
call_behind_brace_example = call_behind_brace clang config invariant 4 3 same loose refl

relevant_example :
    handle_translation_unit clang config
    ≡ inject_all clang config (relevant (codes "a.c") config.witness)
relevant_example = handle_translation_unit-relevant clang config (codes "a.c") refl

ends_example : (es : List (Edit clang)) × (handle_translation_unit clang config ≡ some es)
ends_example = handle_translation_unit-ends clang config tree

fn_balanced : IsEven paren (codes "assert")
unfolding count
fn_balanced = refl

values_balanced : EntriesEven paren config.witness
unfolding count
values_balanced = ((refl, tt), tt)

even_example : AreEven paren ends_example.0
even_example =
    handle_translation_unit-AreEven clang config paren fn_balanced ends_example.0 values_balanced
      ends_example.1
