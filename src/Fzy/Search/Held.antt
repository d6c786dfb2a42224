-- ===== src/Fzy/Search/Held.antt =====
-- No list of a worker of choices_search in examples/fzy.c is merged twice, or used when it is freed.
use native.Mathlib.Nat.{pow-suc, one-le-pow}
use mathlib.Core.Option.{some-injective}
use clang_witness_inject.Prelude.{
  ℕ, suc, ◌+◌, ◌^◌, ◌<◌, ◌≤◌, ◌≡◌, ◌⊎◌, refl, sym, ap, ◌∙◌, subst, true, false, Option, none, some,
  List, [], ◌==◌, arith, Bool-cases, inl, inr, ==_iff,
}
use clang_witness_inject.Fzy.Scores.{Scores}
use clang_witness_inject.Fzy.Choices.{ScoredResult}
use clang_witness_inject.Threads.Pool.{update}
use clang_witness_inject.Fzy.Search.{
  Pc, getting, merging, finished, merge2, System, Job, next_worker, Step, create, get, find, sort,
  merge, finish, join, Reach, start, later,
}
use clang_witness_inject.Fzy.Search.Known.{IsKnown, reach-IsKnown, left}
use clang_witness_inject.Fzy.Search.Partner.{next_worker_lem}

-- The worker merges, or has merged, the lists of the workers up to `2 ^ step` from it.
abbrev pub IsStage : Pc → ℕ → Type 0
IsStage (merging t) step = t ≡ step
IsStage (finished t) step = t ≡ step
IsStage _ step = ⊥

pub same-IsStage :
    (pcs : ℕ → Option Pc) (w : ℕ) {l l' : Pc} (step : ℕ)
    → pcs w ≡ some l
    → pcs w ≡ some l'
    → IsStage l' step
    → IsStage l step
same-IsStage pcs w {l} {l'} step e at g =
    subst (λ k. IsStage k step) (some-injective l' l (sym at ∙ e)) g

update_self : {A : Type 0} (f : ℕ → A) (i : ℕ) (a : A) → update f i a i ≡ a
update_self f i a = let same : (i == i) ≡ true = (==_iff i i).1 refl in rw same refl

module _ (sc : Scores) (job : Job sc) where
  open job use {worker_count, qsort}

  abbrev Pcs : Type 0
  Pcs = ℕ → Option Pc

  abbrev Results : Type 0
  Results = ℕ → Option (List (ScoredResult sc))

  abbrev HasList : Option (List (ScoredResult sc)) → Type 0
  HasList o = (rs : List (ScoredResult sc)) × (o ≡ some rs)

  -- Another worker has merged the list of `u`.
  pub record IsTaken (pcs : Pcs) (u : ℕ) : Type 0 where
    pub by : ℕ
    pub pc : Pc
    pub step : ℕ
    pub at : pcs by ≡ some pc
    pub reaches : IsStage pc step
    pub behind : by < u
    pub below : u < by + 2 ^ step

  -- A worker that begins, goes on or ends has merged no less than before.
  abbrev Grows : Pcs → ℕ → Pc → Type 0
  Grows pcs w l' =
      (l : Pc) (step : ℕ)
      → pcs w ≡ some l
      → IsStage l step
      → (next : ℕ) × (IsStage l' next) × (2 ^ step ≤ 2 ^ next)

  IsTaken-keep :
      (pcs : Pcs) (w : ℕ) (l' : Pc)
      → Grows pcs w l'
      → {u : ℕ} → IsTaken pcs u
      → IsTaken (update pcs w (some l')) u
  IsTaken-keep pcs w l' grows k = elim (Bool-cases (w == k.by)) [
    | inl same ↦
        let back : w ≡ k.by = (==_iff w k.by).0 same in
        let (next, reaches, more) = grows k.pc k.step (ap pcs back ∙ k.at) k.reaches in
        record {
          by = w;
          pc = l';
          step = next;
          at = update_self pcs w (some l');
          reaches = reaches;
          behind = omega (arith, back, k.behind);
          below = omega (arith, back, k.below, more);
        }
    | inr other ↦ record {
      by = k.by;
      pc = k.pc;
      step = k.step;
      at = rw other k.at;
      reaches = k.reaches;
      behind = k.behind;
      below = k.below;
    }
  ]

  -- Each list of a worker is there, or merged by another.
  abbrev IsHeld : Pcs → Results → Type 0
  IsHeld pcs results = (u : ℕ) (l : Pc) → pcs u ≡ some l → HasList (results u) ⊎ IsTaken pcs u

  IsHeld-work :
      (pcs : Pcs) (results results' : Results) (w : ℕ) (l' : Pc)
      → Grows pcs w l'
      → HasList (results' w) ⊎ IsTaken pcs w
      → ((u : ℕ) (rs : List (ScoredResult sc))
          → (w == u) ≡ false
          → results u ≡ some rs
          → HasList (results' u) ⊎ IsTaken (update pcs w (some l')) u)
      → IsHeld pcs results
      → IsHeld (update pcs w (some l')) results'
  IsHeld-work pcs results results' w l' grows own others h u l e = elim (Bool-cases (w == u)) [
    | inl same ↦
        let back : w ≡ u = (==_iff w u).0 same in
        subst (λ v. HasList (results' v) ⊎ IsTaken (update pcs w (some l')) v) back
          (elim own [ inl has ↦ inl has | inr taken ↦ inr (IsTaken-keep pcs w l' grows taken) ])
    | inr other ↦ elim (h u l (rw other at e)) [
      | inl (rs, r) ↦ others u rs other r
      | inr taken ↦ inr (IsTaken-keep pcs w l' grows taken)
    ]
  ]

  -- The worker has a new list, and the others keep theirs.
  IsHeld-list :
      (pcs : Pcs) (results : Results) (w : ℕ) (l' : Pc) (list : List (ScoredResult sc))
      → Grows pcs w l'
      → IsHeld pcs results
      → IsHeld (update pcs w (some l')) (update results w (some list))
  IsHeld-list pcs results w l' list grows h =
      IsHeld-work pcs results _ w l' grows (inl (list, update_self results w (some list)))
        (λ u rs other r. inl (rs, rw other r)) h

  step-IsHeld :
      {s t : System sc}
      → Step sc job s t
      → IsKnown sc job s
      → IsHeld s.pcs s.results
      → IsHeld t.pcs t.results
  step-IsHeld {s} (create i e) k h =
      let no_pc = (k.fresh i (omega (arith, ap (left sc job) e))).0 in
      IsHeld-list s.pcs s.results i getting [] (λ l step at g. cc) h
  step-IsHeld {s} (get w e) k h =
      IsHeld-work s.pcs s.results s.results w _
        (λ l step at g. absurd (same-IsStage s.pcs w step e at g)) (h w getting e)
        (λ u rs other r. inl (rs, r)) h
  step-IsHeld {s} (find w from to e r) k h =
      IsHeld-list s.pcs s.results w getting _
        (λ l step at g. absurd (same-IsStage s.pcs w step e at g)) h
  step-IsHeld {s} (sort w e r) k h =
      IsHeld-list s.pcs s.results w (merging 0) _
        (λ l step at g. absurd (same-IsStage s.pcs w step e at g)) h
  step-IsHeld {s} (merge w step last {list1} {list2} e m lt f r q) k h =
      let v = next_worker w step in
      let (sum, whole) = next_worker_lem w step m in
      IsHeld-work s.pcs s.results
        (update (update s.results v none) w (some (merge2 sc list1 list2))) w (merging (suc step))
        (λ l t at g.
          let same : step ≡ t = same-IsStage s.pcs w t e at g in
          (suc step, refl, rw (← same) (omega (arith, pow-suc 2 step))))
        (inl (merge2 sc list1 list2, update_self (update s.results v none) w _))
        (λ u rs other old. elim (Bool-cases (v == u)) [
          | inl same ↦
              let back : v ≡ u = (==_iff v u).0 same in
              inr (record {
                by = w;
                pc = merging (suc step);
                step = suc step;
                at = update_self s.pcs w (some (merging (suc step)));
                reaches = refl;
                behind = omega (arith, back, sum, one-le-pow step 2 (omega arith));
                below = omega (arith, back, sum, pow-suc 2 step, one-le-pow step 2 (omega arith));
              })
          | inr apart ↦ inl (rs, rw (other, apart) old)
        ])
        h
  step-IsHeld {s} (finish w step e m) k h =
      IsHeld-work s.pcs s.results s.results w (finished step)
        (λ l t at g.
          let same : step ≡ t = same-IsStage s.pcs w t e at g in
          (step, refl, rw (← same) (omega arith)))
        (h w (merging step) e) (λ u rs other r. inl (rs, r)) h
  step-IsHeld {s} (join last e f r) k h = h

  pub reach-IsHeld : {s : System sc} → Reach sc job s → IsHeld s.pcs s.results
  reach-IsHeld start = λ u l e. cc
  reach-IsHeld (later r st) = step-IsHeld st (reach-IsKnown sc job r) (reach-IsHeld r)
