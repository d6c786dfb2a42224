-- ===== src/Fzy/Search/Cover.antt =====
-- The joins of the workers of choices_search in examples/fzy.c form a tree with worker 0 at its root.
use native.Mathlib.Nat.{pow-suc, zero-mod}
use clang_witness_inject.Prelude.{
  ℕ, suc, ◌+◌, ◌*◌, ◌/◌, ◌^◌, ◌<◌, ◌≤◌, ◌≡◌, ◌≢◌, ◌⊎◌, refl, sym, ap, ◌∙◌, subst, true, false,
  Option, none, some, List, [], ltb, ltb→lt, ◌==◌, arith, Bool-cases, inl, inr, ==_iff,
}
use clang_witness_inject.Fzy.Scores.{Scores}
use clang_witness_inject.Fzy.Choices.{ScoredResult}
use clang_witness_inject.Threads.Pool.{update}
use clang_witness_inject.Fzy.Search.{
  Pc, getting, merging, finished, merge2, System, Job, after_batch, has_next, next_worker, Step,
  create, get, find, sort, merge, finish, join, Reach, start, later,
}
use clang_witness_inject.Fzy.Search.Known.{IsKnown, reach-IsKnown, left}
use clang_witness_inject.Fzy.Search.Partner.{next_worker_lem, last_reach}

pub after_batch_early :
    (from to t : ℕ) → (after_batch (from, to) ≢ merging t) × (after_batch (from, to) ≢ finished t)
after_batch_early from to t = elim (Bool-cases (from == to)) [
  | inl e ↦ (λ h. cc (rw e at h), λ h. cc (rw e at h))
  | inr e ↦ (λ h. cc (rw e at h), λ h. cc (rw e at h))
]

module _ (sc : Scores) (job : Job sc) where
  open job use {worker_count, qsort}

  abbrev Pcs : Type 0
  Pcs = ℕ → Option Pc

  abbrev Results : Type 0
  Results = ℕ → Option (List (ScoredResult sc))

  -- The worker has ended, and its results are merged into another's.
  abbrev pub IsMerged : (ℕ → Option Pc) → (ℕ → Option (List (ScoredResult sc))) → ℕ → Type 0
  IsMerged pcs results v = ((t : ℕ) × (pcs v ≡ some (finished t))) × (results v ≡ none)

  -- The worker has merged those behind it that it joins up to `step`.
  abbrev pub HasMerged : Pcs → Results → ℕ → ℕ → Type 0
  HasMerged pcs results w step =
      (v : ℕ) → w < v → v < w + 2 ^ step → v < worker_count → IsMerged pcs results v

  -- Why a worker has left its last loop.
  abbrev IsLast : ℕ → ℕ → Type 0
  IsLast w step = (has_next w step ≡ false) ⊎ (worker_count ≤ next_worker w step)

  pub record IsTree (pcs : Pcs) (results : Results) : Type 0 where
    pub at_work : (w step : ℕ) → pcs w ≡ some (merging step) → HasMerged pcs results w step
    pub at_end :
        (w step : ℕ) → pcs w ≡ some (finished step) → HasMerged pcs results w step × IsLast w step

  module _ (pcs : Pcs) (results results' : Results) (w : ℕ) (l' : Pc)
      (working : (t : ℕ) → pcs w ≢ some (finished t))
      (freed : (v : ℕ) → IsMerged pcs results v → results' v ≡ none) where
    IsMerged-keep : (v : ℕ) → IsMerged pcs results v → IsMerged (update pcs w (some l')) results' v
    IsMerged-keep v h =
        let ((t, e), r) = h in
        elim (Bool-cases (w == v)) [
          | inl same ↦
              let back : w ≡ v = (==_iff w v).0 same in absurd (working t (ap pcs back ∙ e))
          | inr other ↦ rw other ((t, e), freed v h)
        ]

    HasMerged-keep :
        (u step : ℕ)
        → HasMerged pcs results u step
        → HasMerged (update pcs w (some l')) results' u step
    HasMerged-keep u step h = λ v a b c. IsMerged-keep v (h v a b c)

    IsTree-work :
        ((step : ℕ) → l' ≡ merging step → HasMerged (update pcs w (some l')) results' w step)
        → ((step : ℕ) → l' ≡ finished step → HasMerged pcs results w step × IsLast w step)
        → IsTree pcs results
        → IsTree (update pcs w (some l')) results'
    IsTree-work new ends tree = record {
      at_work = λ u step e. elim (Bool-cases (w == u)) [
        | inl same ↦
            let back : w ≡ u = (==_iff w u).0 same in
            let is : l' ≡ merging step = cc (rw same at e) in
            subst (λ v. HasMerged (update pcs w (some l')) results' v step) back (new step is)
        | inr other ↦ HasMerged-keep u step (tree.at_work u step (rw other at e))
      ];
      at_end = λ u step e. elim (Bool-cases (w == u)) [
        | inl same ↦
            let back : w ≡ u = (==_iff w u).0 same in
            let is : l' ≡ finished step = cc (rw same at e) in
            let (merged, last) = ends step is in
            subst (λ v. HasMerged (update pcs w (some l')) results' v step × IsLast v step) back
              (HasMerged-keep w step merged, last)
        | inr other ↦
            let (merged, last) = tree.at_end u step (rw other at e) in
            (HasMerged-keep u step merged, last)
      ];
    }

  -- A worker that is not at its end is not merged into another.
  unmerged :
      (pcs : Pcs) (results : Results) (w u : ℕ) (o : Option (List (ScoredResult sc)))
      → ((t : ℕ) → pcs w ≢ some (finished t))
      → IsMerged pcs results u
      → update results w o u ≡ none
  unmerged pcs results w u o working ((t, e), r) = elim (Bool-cases (w == u)) [
    | inl same ↦ let back : w ≡ u = (==_iff w u).0 same in absurd (working t (ap pcs back ∙ e))
    | inr other ↦ rw other r
  ]

  update-none : (results : Results) (w v : ℕ) → results v ≡ none → update results w none v ≡ none
  update-none results w v r = elim (Bool-cases (w == v)) [
    | inl same ↦ rw same refl
    | inr other ↦ rw other r
  ]

  -- The list of the worker that is joined goes to the one that joins it.
  module _ (pcs : Pcs) (results : Results) (w step last : ℕ) (list : List (ScoredResult sc))
      (tree : IsTree pcs results) (e : pcs w ≡ some (merging step)) (h : has_next w step ≡ true)
      (f : pcs (next_worker w step) ≡ some (finished last)) where
    abbrev freed : Results
    freed = update results (next_worker w step) none

    merge-freed : (v : ℕ) → w < v → v < w + 2 ^ suc step → v < worker_count → IsMerged pcs freed v
    merge-freed v a b c =
        let next = next_worker w step in
        let (sum, whole) = next_worker_lem w step h in
        let double = pow-suc 2 step in
        elim (Bool-cases (ltb v next)) [
          | inl near ↦
              let (ended, gone) =
                tree.at_work w step e v a (omega (arith, sum, ltb→lt v next near)) c in
              (ended, update-none results next v gone)
          | inr far ↦ elim (Bool-cases (next == v)) [
            | inl same ↦
                let back : next ≡ v = (==_iff next v).0 same in
                ((last, ap pcs (sym back) ∙ f), rw same refl)
            | inr other ↦
                let (merged, ends) = tree.at_end next last f in
                let place : next ≡ w / (2 * 2 ^ step) * (2 * 2 ^ step) + 2 ^ step =
                  omega (arith, sum, whole) in
                let near : v < next + 2 ^ step = omega (arith, sum, double, b) in
                let (ended, gone) =
                  merged v (ground arith)
                    (last_reach worker_count (w / (2 * 2 ^ step)) next step last v place ends near
                      c)
                    c in
                (ended, update-none results next v gone)
          ]
        ]

    HasMerged-merge :
        HasMerged
          (update pcs w (some (merging (suc step))))
          (update freed w (some list))
          w
          (suc step)
    HasMerged-merge v a b c =
        let working : (t : ℕ) → pcs w ≢ some (finished t) = λ t h. cc in
        IsMerged-keep pcs freed (update freed w (some list)) w (merging (suc step)) working
          (λ u m. unmerged pcs freed w u (some list) working m) v (merge-freed v a b c)

  step-IsTree :
      {s t : System sc}
      → Step sc job s t
      → IsKnown sc job s
      → IsTree s.pcs s.results
      → IsTree t.pcs t.results
  step-IsTree {s} (create i e) k tree =
      let (no_pc, no_result) = k.fresh i (omega (arith, ap (left sc job) e)) in
      let working : (t : ℕ) → s.pcs i ≢ some (finished t) = λ t h. cc in
      IsTree-work s.pcs s.results _ i getting working
        (λ v h. unmerged s.pcs s.results i v (some []) working h) (λ t h. cc) (λ t h. cc) tree
  step-IsTree {s} (get w e) k tree =
      IsTree-work s.pcs s.results s.results w _ (λ t h. cc) (λ v h. h.1)
        (λ t h. absurd ((after_batch_early _ _ t).0 h))
        (λ t h. absurd ((after_batch_early _ _ t).1 h)) tree
  step-IsTree {s} (find w from to {rs} e r) k tree =
      let working : (t : ℕ) → s.pcs w ≢ some (finished t) = λ t h. cc in
      IsTree-work s.pcs s.results _ w getting working
        (λ v h. unmerged s.pcs s.results w v _ working h) (λ t h. cc) (λ t h. cc) tree
  step-IsTree {s} (sort w e r) k tree =
      let working : (t : ℕ) → s.pcs w ≢ some (finished t) = λ t h. cc in
      IsTree-work s.pcs s.results _ w (merging 0) working
        (λ v h. unmerged s.pcs s.results w v _ working h)
        (λ t h v a b c.
          absurd
            (let z : t ≡ 0 = cc in let near : v < w + 2 ^ 0 = rw z at b in omega (arith, near)))
        (λ t h. cc) tree
  step-IsTree {s} (merge w step last {list1} {list2} e h lt f r q) k tree =
      let working : (t : ℕ) → s.pcs w ≢ some (finished t) = λ t h. cc in
      IsTree-work s.pcs s.results _ w (merging (suc step)) working
        (λ v m.
          unmerged s.pcs (update s.results (next_worker w step) none) w v _ working
            (m.0, update-none s.results (next_worker w step) v m.1))
        (λ t m.
          let z : suc step ≡ t = cc in
          subst (HasMerged _ _ w) z
            (HasMerged-merge s.pcs s.results w step last (merge2 sc list1 list2) tree e h f))
        (λ t h. cc) tree
  step-IsTree {s} (finish w step e h) k tree =
      IsTree-work s.pcs s.results s.results w (finished step) (λ t h. cc) (λ v h. h.1) (λ t h. cc)
        (λ t m.
          let z : step ≡ t = cc in
          subst (λ n. HasMerged s.pcs s.results w n × IsLast w n) z (tree.at_work w step e, h))
        tree
  step-IsTree {s} (join last e f r) k tree = tree

  pub reach-IsTree : {s : System sc} → Reach sc job s → IsTree s.pcs s.results
  reach-IsTree start = record { at_work = λ w step e. cc; at_end = λ w step e. cc }
  reach-IsTree (later r st) = step-IsTree st (reach-IsKnown sc job r) (reach-IsTree r)

  -- When worker 0 has ended, all others have, and their results are merged.
  pub root-IsMerged :
      {s : System sc} {last : ℕ}
      → Reach sc job s
      → s.pcs 0 ≡ some (finished last)
      → (v : ℕ) → 0 < v
      → v < worker_count
      → IsMerged s.pcs s.results v
  root-IsMerged {s} {last} r e v a b =
      let (merged, ends) = (reach-IsTree r).at_end 0 last e in
      let joins : has_next 0 last ≡ true = rw (zero-mod (2 * 2 ^ last)) refl in
      let sum = (next_worker_lem 0 last joins).0 in
      elim ends [ inl no_next ↦ cc | inr past ↦ merged v a (omega (arith, sum, past)) b ]
