-- ===== src/Inject/Loose.antt =====
-- A loop body that is no compound statement (`InjectLoopInvariantAt` of src/inject.cpp).
use clang_witness_inject.Prelude.{◌≡◌, refl, true, false, List, ◌∷◌, ◌++◌, codes, ◌⊎◌, arith, ◌∙◌}
use clang_witness_inject.Witness.{Invariant}
use clang_witness_inject.Clang.{Clang, Kind, is_stmt, HasSameLoc}
use clang_witness_inject.Inject.{
  WitnessInjectionConfig, inject_loop_invariant_at, is_compound, insert_seq_stmt,
}
use clang_witness_inject.Inject.Shape.{assertion, text_at}
use clang_witness_inject.Inject.Places.{text_at-body}

module _ (c : Clang) (config : WitnessInjectionConfig) (v : Invariant) (b p : c.Node) where
  -- A body that is a statement other than a compound one, under a `while` or `do` loop.
  pub record IsLoose : Type 0 where
    pub rest : List c.Node
    pub parents_are : c.parents b ≡ p ∷ rest
    pub loop : (c.kind p ≡ Kind.while_stmt) ⊎ (c.kind p ≡ Kind.do_stmt)
    pub statement : is_stmt (c.kind b) ≡ true
    pub single : is_compound (c.kind b) ≡ false

  loose-braced : IsLoose → insert_seq_stmt c (c.parents b) ≡ true
  unfolding insert_seq_stmt
  loose-braced h = rw (h.parents_are, insert_seq_stmt) (ground (arith, h.loop))

  -- At a loop whose body is a single statement, the call of the assert function comes to stand
  -- behind the brace that closes the body, so it is not run by the rounds of the loop: at the end
  -- of the body's last token `; }` is written first and the call after it. This where the first
  -- token of the body does not begin at that place.
  pub call_behind_brace :
      HasSameLoc c
      → IsLoose
      → c.same_loc (c.token_start (c.range_begin b)) (c.token_end (c.range_end b)) ≡ false
      → text_at c (c.token_end (c.range_end b)) (inject_loop_invariant_at c config b v)
        ≡ codes "; }" ++ assertion config v
  call_behind_brace same h apart =
      let end = c.token_end (c.range_end b) in
      let here = (same.same_loc_iff end end).1 refl in
      text_at-body c config v end b h.statement ∙ rw (h.single, loose-braced h, apart, here) refl
