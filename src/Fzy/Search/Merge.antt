-- ===== src/Fzy/Search/Merge.antt =====
-- merge2 in examples/fzy.c keeps the order and the results.
use clang_witness_inject.Prelude.{
  ℕ, ◌+◌, ◌≡◌, refl, Bool, true, false, List, [], ◌∷◌, ◌++◌, ltb, arith, Bool-cases, inl, inr,
  if◌then◌else◌,
}
use clang_witness_inject.Fzy.Scores.{Scores, IsOrder}
use clang_witness_inject.Fzy.Choices.{ScoredResult, cmpchoice}
use clang_witness_inject.Fzy.Search.{merge2}

module _ (sc : Scores) where
  -- Nothing at the head of the list comes before `a`.
  abbrev IsBehind : ScoredResult sc → List (ScoredResult sc) → Type 0
  IsBehind a [] = Unit
  IsBehind a (b ∷ rs) = cmpchoice sc b a ≡ false

  -- No result comes before the one in front of it.
  abbrev pub IsSorted : List (ScoredResult sc) → Type 0
  IsSorted [] = Unit
  IsSorted (a ∷ rs) = IsBehind a rs × IsSorted rs

  -- How many of the results the test holds of.
  unfoldable pub count : (ScoredResult sc → Bool) → List (ScoredResult sc) → ℕ
  count p [] = 0
  count p (a ∷ rs) = (if p a then 1 else 0) + count p rs

  pub count-append :
      (p : ScoredResult sc → Bool) (xs ys : List (ScoredResult sc))
      → count p (xs ++ ys) ≡ count p xs + count p ys
  unfolding count
  count-append p [] ys = omega arith
  count-append p (x ∷ xs) ys = omega (arith, count-append p xs ys)

  cmpchoice_asym :
      IsOrder sc → (a b : ScoredResult sc) → cmpchoice sc a b ≡ true → cmpchoice sc b a ≡ false
  unfolding cmpchoice
  cmpchoice_asym o a b h = elim (Bool-cases (sc.eq a.score b.score)) [
    | inl e ↦
        let back = o.eq_sym a.score b.score e in
        let less : ltb a.str.address b.str.address ≡ true = rw e at h in rw back (ground arith)
    | inr e ↦ elim (Bool-cases (sc.lt a.score b.score)) [
      | inl less ↦ cc (rw (e, less) at h)
      | inr other ↦
          let above = o.total a.score b.score e other in
          let apart = o.eq_lt b.score a.score above in rw (apart, above) refl
    ]
  ]

  module _ (x : ScoredResult sc) (xs : List (ScoredResult sc)) (y : ScoredResult sc)
      (ys : List (ScoredResult sc)) where
    merge2_first : cmpchoice sc x y ≡ true → merge2 sc (x ∷ xs) (y ∷ ys) ≡ x ∷ merge2 sc xs (y ∷ ys)
    unfolding merge2
    merge2_first e = rw (e, merge2) refl

    merge2_second :
        cmpchoice sc x y ≡ false → merge2 sc (x ∷ xs) (y ∷ ys) ≡ y ∷ merge2 sc (x ∷ xs) ys
    unfolding merge2
    merge2_second e = rw (e, merge2) refl

  pub count-merge2 :
      (p : ScoredResult sc → Bool) (xs ys : List (ScoredResult sc))
      → count p (merge2 sc xs ys) ≡ count p xs + count p ys
  unfolding count merge2
  count-merge2 p (x ∷ xs) (y ∷ ys) = elim (Bool-cases (cmpchoice sc x y)) [
    | inl e ↦ rw (merge2_first x xs y ys e) (omega (arith, count-merge2 p xs (y ∷ ys)))
    | inr e ↦ rw (merge2_second x xs y ys e) (omega (arith, count-merge2 p (x ∷ xs) ys))
  ]
  count-merge2 p [] [] = omega arith
  count-merge2 p [] (y ∷ ys) = omega arith
  count-merge2 p (x ∷ xs) [] = omega arith

  merge2-IsBehind :
      (a : ScoredResult sc) (xs ys : List (ScoredResult sc))
      → IsBehind a xs
      → IsBehind a ys
      → IsBehind a (merge2 sc xs ys)
  unfolding merge2
  merge2-IsBehind a (x ∷ xs) (y ∷ ys) h k = elim (Bool-cases (cmpchoice sc x y)) [
    | inl e ↦ rw (merge2_first x xs y ys e) h
    | inr e ↦ rw (merge2_second x xs y ys e) k
  ]
  merge2-IsBehind a [] [] h k = tt
  merge2-IsBehind a [] (y ∷ ys) h k = k
  merge2-IsBehind a (x ∷ xs) [] h k = h

  pub merge2-IsSorted :
      IsOrder sc
      → (xs ys : List (ScoredResult sc)) → IsSorted xs
      → IsSorted ys
      → IsSorted (merge2 sc xs ys)
  unfolding merge2
  merge2-IsSorted o (x ∷ xs) (y ∷ ys) h k = elim (Bool-cases (cmpchoice sc x y)) [
    | inl e ↦ rw (merge2_first x xs y ys e) (
      merge2-IsBehind x xs (y ∷ ys) h.0 (cmpchoice_asym o x y e),
      merge2-IsSorted o xs (y ∷ ys) h.1 k,
    )
    | inr e ↦
        rw (merge2_second x xs y ys e)
          (merge2-IsBehind y (x ∷ xs) ys e k.0, merge2-IsSorted o (x ∷ xs) ys h k.1)
  ]
  merge2-IsSorted o [] [] h k = tt
  merge2-IsSorted o [] (y ∷ ys) h k = k
  merge2-IsSorted o (x ∷ xs) [] h k = h
