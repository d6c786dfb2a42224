-- ===== src/Locate/Climb.antt =====
-- How `largestASTNodeStartingAt` of src/util.cpp climbs from the smallest container: it ends, and
-- it ends at the top of what it may climb to.
use clang_witness_inject.Prelude.{
  ℕ, zero, suc, ◌<◌, ◌≡◌, refl, ◌⊎◌, inl, inr, true, false, none, some, List, [], ◌∷◌, In, here,
  there, arith, Bool-cases, Option-cases,
}
use clang_witness_inject.Clang.{Clang, IsTree, is_expr}
use clang_witness_inject.Locate.{
  token_begin, node_begin, smallest_container, find_parent, climbs_to, first_climb, climb, located,
  climb_from, locate_from, largest_ast_node_starting_at,
}

-- `n` itself, or a node over it in the parent map.
pub data Above (c : Clang) (n : c.Node) : c.Node → Type 0 where
  self : Above c n n
  up : {m : c.Node} {p : c.Node} → Above c n m → In p (c.parents m) → Above c n p

-- `r` lies over `s`. It is `s` itself, starts at `at`, or is an expression. None of its parents
-- starts at `at` or is an expression.
pub record IsLargest (c : Clang) (at : c.Loc) (s r : c.Node) : Type 0 where
  pub above : Above c s r
  pub starts : (r ≡ s) ⊎ (c.same_loc (node_begin c r) at ≡ true) ⊎ (is_expr (c.kind r) ≡ true)
  pub top :
      (p : c.Node)
      → In p (c.parents r)
      → (c.same_loc (node_begin c p) at ≡ false) × (is_expr (c.kind p) ≡ false)

module _ (c : Clang) (tree : IsTree c) (at : c.Loc) where
  climbs_to-false :
      (p : c.Node)
      → climbs_to c at p ≡ false
      → (c.same_loc (node_begin c p) at ≡ false) × (is_expr (c.kind p) ≡ false)
  unfolding climbs_to
  climbs_to-false p h = ground arith

  climbs_to-true :
      (p : c.Node)
      → climbs_to c at p ≡ true
      → (c.same_loc (node_begin c p) at ≡ true) ⊎ (is_expr (c.kind p) ≡ true)
  unfolding climbs_to
  climbs_to-true p h = ground arith

  first_climb-none :
      (ps : List c.Node)
      → first_climb c at ps ≡ none
      → (p : c.Node) → In p ps
      → climbs_to c at p ≡ false
  unfolding first_climb
  first_climb-none [] h p i = elim i [ ]
  first_climb-none (q ∷ ps) h p here = ground arith
  first_climb-none (q ∷ ps) h p (there i) = first_climb-none ps (ground arith) p i

  first_climb-some :
      (ps : List c.Node) (p : c.Node)
      → first_climb c at ps ≡ some p
      → In p ps × (climbs_to c at p ≡ true)
  unfolding first_climb
  first_climb-some [] p h = ground arith
  first_climb-some (q ∷ ps) p h = elim (Bool-cases (climbs_to c at q)) [
    | inl e ↦ let same : q ≡ p = ground arith in rw (← same) (here, e)
    | inr e ↦ let rest = first_climb-some ps p (ground arith) in (there rest.0, rest.1)
  ]

  -- With fuel above its depth the climb ends, above where it began.
  climb-ends :
      (fuel : ℕ) (s n : c.Node)
      → c.depth n < fuel
      → Above c s n
      → (n ≡ s) ⊎ (climbs_to c at n ≡ true)
      → (r : c.Node) × (climb c fuel at n ≡ some r) × IsLargest c at s r
  unfolding climb
  climb-ends zero s n h above starts = absurd (omega arith)
  climb-ends (suc fuel) s n h above starts = elim (Option-cases (first_climb c at (c.parents n))) [
    | inl e ↦ (
      n,
      rw (e, climb),
      record {
        above = above;
        starts = ground (arith, climbs_to-true n);
        top = λ p i. climbs_to-false p (first_climb-none (c.parents n) e p i);
      },
    )
    | inr (p, e) ↦
        let (i, yes_p) = first_climb-some (c.parents n) p e in
        let (r, ends, largest) =
          climb-ends fuel s p (omega (arith, tree.rises n p i)) (up above i) (inr yes_p) in
        (r, rw (e, climb) ends, largest)
  ]

  -- With fuel above the depth of its nodes the search for a parent ends, at the node itself or at a
  -- node over it that starts at `at`.
  find_parent-ends :
      (fuel : ℕ) (s : c.Node) (ps : List c.Node)
      → ((p : c.Node) → In p ps → (c.depth p < fuel) × Above c s p)
      → (r : c.Node) × (find_parent c fuel at s ps ≡ some r)
        × Above c s r
        × ((r ≡ s) ⊎ (c.same_loc (node_begin c r) at ≡ true))
  unfolding find_parent
  find_parent-ends fuel s [] h = (s, refl, self, inl refl)
  find_parent-ends zero s (p ∷ ps) h = absurd (omega (arith, (h p here).0))
  find_parent-ends (suc fuel) s (p ∷ ps) h = elim (Bool-cases (c.same_loc (node_begin c p) at)) [
    | inl e ↦ (p, rw e, (h p here).1, inr e)
    | inr e ↦
        let below = h p here in
        let (r, ends, above, starts) =
          find_parent-ends fuel s (c.parents p)
            (λ q i. (omega (arith, tree.rises p q i, below.0), up below.1 i)) in
        (r, rw e ends, above, starts)
  ]

  climb_from-ends :
      (s n : c.Node)
      → Above c s n
      → (n ≡ s) ⊎ (c.same_loc (node_begin c n) at ≡ true)
      → (r : c.Node) × (climb_from c at (some n) ≡ located (some r)) × IsLargest c at s r
  unfolding climb_from climbs_to
  climb_from-ends s n above starts =
      let (r, ends, largest) =
        climb-ends (suc (c.depth n)) s n (omega arith) above (ground (arith, starts)) in
      (r, rw ends, largest)

  locate_from-ends :
      (s : c.Node)
      → (r : c.Node) × (locate_from c at (some s) ≡ located (some r)) × IsLargest c at s r
  unfolding locate_from
  locate_from-ends s = elim (Bool-cases (c.same_loc (node_begin c s) at)) [
    | inl e ↦
        let (r, ends, largest) = climb_from-ends s s self (inl refl) in (r, rw e ends, largest)
    | inr e ↦
        let (n, found, above, starts) =
          find_parent-ends (suc (c.depth s)) s (c.parents s)
            (λ p i. (omega (arith, tree.rises s p i), up self i)) in
        let (r, ends, largest) = climb_from-ends s n above starts in
        (r, rw (e, found) ends, largest)
  ]

-- `largestASTNodeStartingAt` always ends on a finite tree. It answers with no node exactly where
-- the location has no token or no node holds it; otherwise with a node over the smallest container
-- that is that container, starts at the token or is an expression, and none of whose parents starts
-- at the token or is an expression.
pub largest_ast_node_starting_at-IsLargest :
    (c : Clang) (l : c.Loc)
    → IsTree c
    → ((largest_ast_node_starting_at c l ≡ located none)
        × ((c.is_invalid (token_begin c l) ≡ true)
            ⊎ (smallest_container c (token_begin c l) ≡ none)))
      ⊎ ((s : c.Node) × (r : c.Node) × (c.is_invalid (token_begin c l) ≡ false)
          × (smallest_container c (token_begin c l) ≡ some s)
          × (largest_ast_node_starting_at c l ≡ located (some r))
          × IsLargest c (token_begin c l) s r)
unfolding largest_ast_node_starting_at locate_from
largest_ast_node_starting_at-IsLargest c l tree =
    elim (Bool-cases (c.is_invalid (token_begin c l))) [
      | inl e ↦ inl (rw e, inl e)
      | inr e ↦ elim (Option-cases (smallest_container c (token_begin c l))) [
        | inl n ↦ inl (rw (e, n), inr n)
        | inr (s, f) ↦
            let (r, ends, largest) = locate_from-ends c tree (token_begin c l) s in
            inr (s, r, e, f, rw (e, f) ends, largest)
      ]
    ]
