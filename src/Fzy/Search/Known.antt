-- ===== src/Fzy/Search/Known.antt =====
-- Which workers of choices_search in examples/fzy.c are created, and that they are the ones there are.
use clang_witness_inject.Prelude.{
  ℕ, suc, ◌<◌, ◌≤◌, ◌≡◌, refl, ap, ◌∙◌, subst, false, Option, none, some, List, ◌==◌, arith,
  Bool-cases, inl, inr, ==_iff,
}
use clang_witness_inject.Fzy.Scores.{Scores}
use clang_witness_inject.Fzy.Choices.{ScoredResult}
use clang_witness_inject.Threads.Pool.{update}
use clang_witness_inject.Fzy.Search.{
  Pc, merging, finished, MainPc, creating, returned, System, Job, next_worker, Step, create, get,
  find, sort, merge, finish, join, Reach, start, later,
}

update-apart :
    {A B : Type 0} (pcs : ℕ → Option A) (f : ℕ → Option B) (w u : ℕ) {l : A} (o : Option B)
    → pcs w ≡ some l
    → pcs u ≡ none
    → update f w o u ≡ f u
update-apart pcs f w u o e h = elim (Bool-cases (w == u)) [
  | inl same ↦ let back : w ≡ u = (==_iff w u).0 same in absurd (cc (ap pcs back))
  | inr other ↦ rw other refl
]

-- A worker that has ended is not one that merges.
pub finished-merging :
    (pcs : ℕ → Option Pc) (v w : ℕ) {a b : ℕ}
    → pcs v ≡ some (finished a)
    → pcs w ≡ some (merging b)
    → (v == w) ≡ false
finished-merging pcs v w f e = elim (Bool-cases (v == w)) [
  | inl same ↦ let back : v ≡ w = (==_iff v w).0 same in absurd (cc (ap pcs back))
  | inr other ↦ other
]

module _ (sc : Scores) (job : Job sc) where
  open job use {strings, worker_count, qsort}

  -- How many workers are not created yet.
  abbrev pub left : MainPc sc → ℕ
  left (creating i) = i
  left (returned results) = 0

  pub record IsKnown (s : System sc) : Type 0 where
    pub left_le : left s.main ≤ worker_count
    pub fresh : (u : ℕ) → u < left s.main → (s.pcs u ≡ none) × (s.results u ≡ none)
    pub known : (u : ℕ) (l : Pc) → s.pcs u ≡ some l → u < worker_count

  IsKnown-work :
      (s : System sc) (processed w : ℕ) {l : Pc} (l' : Pc)
      (results : ℕ → Option (List (ScoredResult sc)))
      → s.pcs w ≡ some l
      → ((u : ℕ) → s.pcs u ≡ none → results u ≡ s.results u)
      → IsKnown s
      → IsKnown
          (record s { processed = processed; pcs = update s.pcs w (some l'); results = results })
  IsKnown-work s processed w {l} l' results e same k = record {
    left_le = k.left_le;
    fresh = λ u h.
        let (no_pc, no_result) = k.fresh u h in
        (update-apart s.pcs s.pcs w u (some l') e no_pc ∙ no_pc, same u no_pc ∙ no_result);
    known = λ u m h. elim (Bool-cases (w == u)) [
      | inl here ↦ subst (λ v. v < worker_count) ((==_iff w u).0 here) (k.known w l e)
      | inr other ↦ k.known u m (rw other at h)
    ];
  }

  step-IsKnown : {s t : System sc} → Step sc job s t → IsKnown s → IsKnown t
  step-IsKnown {s} (create i e) k =
      let at : left s.main ≡ suc i = ap left e in
      record {
        left_le = omega (arith, k.left_le, at);
        fresh = λ u h.
            let (a, b) = k.fresh u (omega (arith, at, h)) in
            let other : (i == u) ≡ false = ground arith in rw (other, a, b) (refl, refl);
        known = λ u m h. elim (Bool-cases (i == u)) [
          | inl here ↦ ground (arith, k.left_le)
          | inr other ↦ k.known u m (rw other at h)
        ];
      }
  step-IsKnown {s} (get w e) k = IsKnown-work s _ w _ s.results e (λ u h. refl) k
  step-IsKnown {s} (find w a b e r) k =
      IsKnown-work s _ w _ _ e (λ u h. update-apart s.pcs s.results w u _ e h) k
  step-IsKnown {s} (sort w e r) k =
      IsKnown-work s _ w _ _ e (λ u h. update-apart s.pcs s.results w u _ e h) k
  step-IsKnown {s} (merge w step last e h lt f r q) k =
      IsKnown-work s _ w _ _ e
        (λ u h.
          update-apart s.pcs (update s.results (next_worker w step) none) w u _ e h
          ∙ update-apart s.pcs s.results _ u none f h)
        k
  step-IsKnown {s} (finish w step e h) k = IsKnown-work s _ w _ s.results e (λ u h. refl) k
  step-IsKnown {s} (join last e f r) k = record {
    left_le = omega arith;
    fresh = λ u h. absurd (omega arith);
    known = k.known;
  }

  pub reach-IsKnown : {s : System sc} → Reach sc job s → IsKnown s
  reach-IsKnown start = record {
    left_le = omega arith;
    fresh = λ u h. (refl, refl);
    known = λ u l e. cc;
  }
  reach-IsKnown (later r st) = step-IsKnown st (reach-IsKnown r)
