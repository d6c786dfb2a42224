-- ===== src/Inject/Places.antt =====
-- What each handler of src/inject.cpp writes, and where, on every branch.
use clang_witness_inject.Prelude.{
  ◌≡◌, refl, ap₂, true, false, [], ◌++◌, Text, codes, if◌then◌else◌, Bool-cases, inl, inr, arith,
  ◌&&◌,
}
use clang_witness_inject.Witness.{Invariant}
use clang_witness_inject.Clang.{Clang, Kind, is_stmt, is_decl}
use clang_witness_inject.Inject.{
  WitnessInjectionConfig, insert_seq_stmt, braces, inject_at_stmt, inject_at_decl,
  inject_invariant_at, inject_loop_invariant_at, inject_for, inject_while_or_do, is_compound,
  inject_location_at, is_switch_label, inject_loop_at,
}
use clang_witness_inject.Inject.Shape.{
  assert_call, assertion, at, text_at, text_at-append, one_place, text_at-nil,
  text_at-inject_location,
}

module _ (c : Clang) (config : WitnessInjectionConfig) (v : Invariant) (l : c.Loc) where
  -- What the braces round a node come to at `l`: an opening brace before the first token and a
  -- closing one behind the last, unless the parent takes a further statement.
  abbrev braces_at : c.Node → Text
  braces_at n =
      if insert_seq_stmt c (c.parents n)
      then at c l (c.token_start (c.range_begin n)) (codes "{ ")
        ++ at c l (c.token_end (c.range_end n)) (codes "; }")
      else []

  text_at-braces : (n : c.Node) → text_at c l (braces c config n) ≡ braces_at n
  unfolding braces
  text_at-braces n = elim (Bool-cases (insert_seq_stmt c (c.parents n))) [
    | inl e ↦ rw (e, braces) (simp one_place)
    | inr e ↦ rw (e, braces) (simp one_place)
  ]

  ruleset handlers = (one_place, text_at-nil, text_at-inject_location, text_at-braces)

  text_at-stmt :
      (k : c.Loc) (n : c.Node)
      → text_at c l (inject_at_stmt c config k n v) ≡ braces_at n ++ at c l k (assertion config v)
  unfolding inject_at_stmt
  text_at-stmt k n = simp handlers

  text_at-stmt_branch :
      (k : c.Loc) (n : c.Node)
      → is_stmt (c.kind n) ≡ true
      → text_at c l (inject_invariant_at c config k n v)
        ≡ braces_at n ++ at c l k (assertion config v)
  unfolding inject_invariant_at
  text_at-stmt_branch k n h = rw (h, inject_invariant_at) (text_at-stmt k n)

  -- Where the given location is the begin of the declaration, the parts of the call meet there.
  text_at-decl_branch :
      (n : c.Node)
      → is_stmt (c.kind n) ≡ false
      → text_at c l (inject_invariant_at c config (c.token_start (c.range_begin n)) n v) ≡ (
          if is_decl (c.kind n)
          then at c l (c.token_start (c.range_begin n)) (assertion config v)
          else [])
  unfolding inject_invariant_at inject_at_decl
  text_at-decl_branch n h = elim (Bool-cases (is_decl (c.kind n))) [
    | inl e ↦ rw (h, e, inject_invariant_at) (simp handlers)
    | inr e ↦ rw (h, e, inject_invariant_at) (simp handlers)
  ]

  -- Where a location invariant at node `n` is asserted.
  abbrev place_of : c.Loc → c.Node → c.Loc
  place_of k n = if is_compound (c.kind n) then k else c.token_start (c.range_begin n)

  abbrev pub expected_location : c.Loc → c.Node → Text
  expected_location k n =
      if is_stmt (c.kind n)
      then braces_at n ++ at c l (place_of k n) (assertion config v)
      else if is_decl (c.kind n)
      then at c l (place_of k n) (assertion config v)
      else []

  location_branches :
      (k : c.Loc) (n : c.Node)
      → text_at c l (inject_invariant_at c config (place_of k n) n v) ≡ expected_location k n
  location_branches k n = elim (Bool-cases (is_stmt (c.kind n))) [
    | inl e ↦ rw e (text_at-stmt_branch (place_of k n) n e)
    | inr e ↦
        let plain : is_compound (c.kind n) ≡ false = ground arith in
        rw (e, plain) (text_at-decl_branch n e)
  ]

  -- A location invariant at node `n`, found for the location `k`, becomes one call of the assert
  -- function, with the line and column in a comment, at `k` for a compound statement and before the
  -- first token of `n` otherwise. A statement whose parent takes no further statement gets a brace
  -- before its first token and one behind its last. At a node that is no statement and no
  -- declaration, and at a `case` or `default` label if these are skipped, nothing is written. This
  -- is the text at any location `l`.
  pub text_at-inject_location_at :
      (k : c.Loc) (n : c.Node)
      → text_at c l (inject_location_at c config k v n) ≡ (
          if config.skip_switchcases && is_switch_label (c.kind n)
          then []
          else expected_location k n)
  unfolding inject_location_at
  text_at-inject_location_at k n =
      elim (Bool-cases (config.skip_switchcases && is_switch_label (c.kind n))) [
        | inl e ↦ rw (e, inject_location_at) (simp handlers)
        | inr e ↦ rw (e, inject_location_at) (location_branches k n)
      ]

  -- What a loop invariant comes to at the body `b` of a `while` or `do` loop.
  abbrev expected_body : c.Node → Text
  expected_body b =
      if is_compound (c.kind b)
      then at c l (c.rbrac b) (assertion config v)
      else braces_at b ++ at c l (c.token_end (c.range_end b)) (assertion config v)

  pub text_at-body :
      (b : c.Node)
      → is_stmt (c.kind b) ≡ true
      → text_at c l (inject_loop_invariant_at c config b v) ≡ expected_body b
  unfolding inject_loop_invariant_at
  text_at-body b h = elim (Bool-cases (is_compound (c.kind b))) [
    | inl e ↦ rw (e, inject_loop_invariant_at) (simp handlers)
    | inr e ↦
        rw (e, inject_loop_invariant_at) (text_at-stmt_branch (c.token_end (c.range_end b)) b h)
  ]

  text_at-for :
      (n : c.Node)
      → text_at c l (inject_for c config n v)
        ≡ at c l (c.rparen n) ((if c.has_inc n then codes ", " else []) ++ assert_call config v)
  unfolding inject_for
  text_at-for n = elim (Bool-cases (c.has_inc n)) [
    | inl e ↦ rw e (simp handlers)
    | inr e ↦ rw e (simp handlers)
  ]

  -- The loop at a node of a given kind.
  abbrev pub expected_loop : Kind → c.Node → Text
  expected_loop Kind.for_stmt n =
      at c l (c.rparen n) ((if c.has_inc n then codes ", " else []) ++ assert_call config v)
  expected_loop Kind.while_stmt n =
      expected_body (c.body n)
      ++ (braces_at n ++ at c l (c.token_start (c.range_begin n)) (assertion config v))
  expected_loop Kind.do_stmt n =
      expected_body (c.body n)
      ++ (braces_at n ++ at c l (c.token_start (c.range_begin n)) (assertion config v))
  expected_loop _ n = []

  text_at-while_or_do :
      (n : c.Node)
      → is_stmt (c.kind n) ≡ true
      → is_stmt (c.kind (c.body n)) ≡ true
      → text_at c l (inject_while_or_do c config n v)
        ≡ expected_body (c.body n)
          ++ (braces_at n ++ at c l (c.token_start (c.range_begin n)) (assertion config v))
  unfolding inject_while_or_do
  text_at-while_or_do n h b =
      let begin = c.token_start (c.range_begin n) in
      rw text_at-append (ap₂ ◌++◌ (text_at-body (c.body n) b) (text_at-stmt_branch begin n h))

  loop_branches :
      (k : Kind) (n : c.Node)
      → c.kind n ≡ k
      → is_stmt (c.kind (c.body n)) ≡ true
      → text_at c l (inject_loop_at c config k n v) ≡ expected_loop k n
  unfolding inject_loop_at
  loop_branches Kind.for_stmt n e b = text_at-for n
  loop_branches Kind.while_stmt n e b = text_at-while_or_do n (rw e refl) b
  loop_branches Kind.do_stmt n e b = text_at-while_or_do n (rw e refl) b
  loop_branches _ n e b = text_at-nil c l

  -- A loop invariant at node `n` becomes, at a `for` loop, one further expression behind the
  -- increment, or in its place, before the closing parenthesis; at a `while` or `do` loop, a call
  -- before the closing brace of the body and one before the loop, the loop in braces where its
  -- parent takes no further statement; at any other node nothing. If the body is no compound
  -- statement, the call stands at the end of the body's last token and the body is put in braces.
  -- This is the text at any location `l`, given that the body of the loop is a statement.
  pub text_at-inject_loop_at :
      (n : c.Node)
      → is_stmt (c.kind (c.body n)) ≡ true
      → text_at c l (inject_loop_at c config (c.kind n) n v) ≡ expected_loop (c.kind n) n
  text_at-inject_loop_at n b = loop_branches (c.kind n) n refl b
