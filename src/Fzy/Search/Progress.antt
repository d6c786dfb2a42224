-- ===== src/Fzy/Search/Progress.antt =====
-- The joins of choices_search in examples/fzy.c do not wait for one another in a circle.
use mathlib.Core.Option.{some-injective}
use native.Mathlib.Nat.{one-le-pow}
use clang_witness_inject.Prelude.{
  ℕ, zero, suc, ◌+◌, ◌-◌, ◌*◌, ◌/◌, ◌^◌, ◌<◌, ◌≤◌, ◌≡◌, ◌≢◌, ◌⊎◌, refl, sym, ap, ◌∙◌, subst, true,
  Option, some, List, ltb, leb, leb→le, ltb→lt, ◌==◌, arith, Bool-cases, inl, inr, ==_iff,
}
use clang_witness_inject.Fzy.Scores.{Scores}
use clang_witness_inject.Fzy.Choices.{ScoredResult}
use clang_witness_inject.Fzy.Search.{
  Pc, getting, searching, sorting, merging, finished, MainPc, creating, returned, System, Job,
  has_next, next_worker, Step, create, get, find, sort, merge, finish, join, Reach,
}
use clang_witness_inject.Fzy.Search.Known.{reach-IsKnown, left}
use clang_witness_inject.Fzy.Search.Partner.{next_worker_lem}
use clang_witness_inject.Fzy.Search.Ranges.{ranges_nest}
use clang_witness_inject.Fzy.Search.Cover.{IsTree, reach-IsTree, HasMerged}
use clang_witness_inject.Fzy.Search.Held.{IsStage, same-IsStage, reach-IsHeld}
use clang_witness_inject.Fzy.Search.Aligned.{reach-IsAligned, reach-AreCreated}

MainPc-cases :
    (sc : Scores) (main : MainPc sc)
    → ((i : ℕ) × (main ≡ creating (suc i)))
      ⊎ (main ≡ creating 0)
      ⊎ ((rs : List (ScoredResult sc)) × (main ≡ returned rs))
MainPc-cases sc (creating zero) = inr (inl refl)
MainPc-cases sc (creating (suc i)) = inl (i, refl)
MainPc-cases sc (returned rs) = inr (inr (rs, refl))

module _ (sc : Scores) (job : Job sc) where
  open job use {worker_count, qsort}

  IsStage-HasMerged :
      {pcs : ℕ → Option Pc} {results : ℕ → Option (List (ScoredResult sc))} (w step : ℕ) (l : Pc)
      → IsTree sc job pcs results
      → pcs w ≡ some l
      → IsStage l step
      → HasMerged sc job pcs results w step
  IsStage-HasMerged w step getting tree e g = absurd g
  IsStage-HasMerged w step (searching from to) tree e g = absurd g
  IsStage-HasMerged w step sorting tree e g = absurd g
  IsStage-HasMerged {pcs} {results} w step (merging t) tree e g =
      subst (HasMerged sc job pcs results w) g (tree.at_work w t e)
  IsStage-HasMerged {pcs} {results} w step (finished t) tree e g =
      subst (HasMerged sc job pcs results w) g (tree.at_end w t e).0

  module _ {s : System sc} (r : Reach sc job s) where
    known-lt : (u : ℕ) (l : Pc) → s.pcs u ≡ some l → u < worker_count
    known-lt = (reach-IsKnown sc job r).known

    -- A worker that is not at its end has its list.
    own_list :
        (w : ℕ) (l : Pc)
        → s.pcs w ≡ some l
        → ((t : ℕ) → l ≢ finished t)
        → (rs : List (ScoredResult sc)) × (s.results w ≡ some rs)
    own_list w l e working = elim (reach-IsHeld sc job r w l e) [
      | inl has ↦ has
      | inr k ↦
          let ((t, ended), gone) =
            IsStage-HasMerged k.by k.step k.pc (reach-IsTree sc job r) k.at k.reaches w k.behind
              k.below (known-lt w l e) in
          absurd (working t (some-injective l (finished t) (sym e ∙ ended)))
    ]

    -- The worker that is joined has its list.
    next_list :
        (w step last : ℕ)
        → s.pcs w ≡ some (merging step)
        → has_next w step ≡ true
        → s.pcs (next_worker w step) ≡ some (finished last)
        → (rs : List (ScoredResult sc)) × (s.results (next_worker w step) ≡ some rs)
    next_list w step last e m f =
        elim (reach-IsHeld sc job r (next_worker w step) (finished last) f) [
          | inl has ↦ has
          | inr k ↦
              let (sum, whole) = next_worker_lem w step m in
              elim (Bool-cases (k.by == w)) [
                | inl same ↦
                    let back : k.by ≡ w = (==_iff k.by w).0 same in
                    let equal : step ≡ k.step =
                      same-IsStage s.pcs w k.step e (ap s.pcs (sym back) ∙ k.at) k.reaches in
                    let powers : 2 ^ step ≡ 2 ^ k.step = ap (λ n. 2 ^ n) equal in
                    absurd (omega (arith, sum, k.below, back, powers))
                | inr other ↦ elim (Bool-cases (ltb k.by w)) [
                  | inl less ↦
                      let ((t, ended), gone) =
                        IsStage-HasMerged k.by k.step k.pc (reach-IsTree sc job r) k.at k.reaches w
                          (ltb→lt k.by w less) (omega (arith, sum, k.below))
                          (known-lt w (merging step) e) in
                      cc (sym e ∙ ended)
                  | inr more ↦
                      let (q, place) = reach-IsAligned sc job r k.by k.pc k.step k.at k.reaches in
                      absurd (
                        ranges_nest w (w / (2 * 2 ^ step)) step k.by q k.step whole place
                          (ground arith) (omega (arith, sum, k.behind))
                          (omega (arith, sum, k.below)))
                ]
              ]
        ]

    abbrev CanStep : Type 0
    CanStep = (t : System sc) × Step sc job s t

    -- A worker that waits for none that is not at its end moves or is at its end.
    worker_moves :
        (w : ℕ) (l : Pc)
        → s.pcs w ≡ some l
        → ((v : ℕ) → w < v → v < worker_count → (t : ℕ) × (s.pcs v ≡ some (finished t)))
        → ((t : ℕ) × (l ≡ finished t)) ⊎ CanStep
    worker_moves w getting e ended = inr (_, get w e)
    worker_moves w (searching from to) e ended =
        let (rs, h) = own_list w (searching from to) e (λ t q. cc) in inr (_, find w from to e h)
    worker_moves w sorting e ended =
        let (rs, h) = own_list w sorting e (λ t q. cc) in inr (_, sort w e h)
    worker_moves w (finished t) e ended = inl (t, refl)
    worker_moves w (merging step) e ended = elim (Bool-cases (has_next w step)) [
      | inr single ↦ inr (_, finish w step e (inl single))
      | inl m ↦ elim (Bool-cases (leb worker_count (next_worker w step))) [
        | inl past ↦ inr (_, finish w step e (inr (leb→le _ _ past)))
        | inr inside ↦
            let sum = (next_worker_lem w step m).0 in
            let lt : next_worker w step < worker_count = ground arith in
            let (last, f) =
              ended (next_worker w step) (omega (arith, sum, one-le-pow step 2 (omega arith))) lt in
            let (list1, h) = own_list w (merging step) e (λ t q. cc) in
            let (list2, q) = next_list w step last e m f in inr (_, merge w step last e m lt f h q)
      ]
    ]

    -- The last `d` workers are at their ends, or a worker moves.
    workers_move :
        (d : ℕ)
        → left sc job s.main ≡ 0
        → ((v : ℕ)
            → worker_count ≤ v + d
            → v < worker_count
            → (t : ℕ) × (s.pcs v ≡ some (finished t)))
          ⊎ CanStep
    workers_move zero none_left = inl (λ v a b. absurd (omega arith))
    workers_move (suc d) none_left = elim (workers_move d none_left) [
      | inr can ↦ inr can
      | inl ended ↦ elim (Bool-cases (leb (suc d) worker_count)) [
        | inr all ↦ inl (λ v a b. ended v (ground arith) b)
        | inl some_left ↦
            let w = worker_count - suc d in
            let le : suc d ≤ worker_count = leb→le _ _ some_left in
            let (l, e) = reach-AreCreated sc job r w (omega (arith, none_left)) (omega arith) in
            elim (worker_moves w l e (λ v a b. ended v (omega arith) b)) [
              | inr can ↦ inr can
              | inl (t, q) ↦ inl (λ v a b. elim (Bool-cases (w == v)) [
                | inl same ↦
                    let back : w ≡ v = (==_iff w v).0 same in
                    (t, ap s.pcs (sym back) ∙ e ∙ ap some q)
                | inr other ↦ ended v (ground arith) b
              ])
            ]
      ]
    ]

  -- As long as choices_search with one worker or more has not returned, it or one of its workers has
  -- a step to take.
  pub choices_search_progress :
      {s : System sc}
      → 0 < worker_count
      → Reach sc job s
      → ((rs : List (ScoredResult sc)) × (s.main ≡ returned rs))
        ⊎ ((t : System sc) × Step sc job s t)
  choices_search_progress {s} lt r = elim (MainPc-cases sc s.main) [
    | inl (i, e) ↦ inr (_, create i e)
    | inr (inr done) ↦ inl done
    | inr (inl e) ↦ elim (workers_move r worker_count (ap (left sc job) e)) [
      | inr can ↦ inr can
      | inl ended ↦
          let (last, f) = ended 0 (omega arith) lt in
          elim (reach-IsHeld sc job r 0 (finished last) f) [
            | inl (rs, q) ↦ inr (_, join last e f q)
            | inr k ↦ absurd (omega (arith, k.behind))
          ]
    ]
  ]
