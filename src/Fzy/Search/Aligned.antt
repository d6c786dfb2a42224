-- ===== src/Fzy/Search/Aligned.antt =====
-- Which workers of choices_search in examples/fzy.c join others, and that all are created.
use mathlib.Core.Option.{some-injective}
use native.Mathlib.Nat.{pow-suc}
use clang_witness_inject.Prelude.{
  ℕ, suc, ◌*◌, ◌/◌, ◌^◌, ◌<◌, ◌≤◌, ◌≡◌, refl, sym, ap, ◌∙◌, subst, Option, some, ◌==◌, arith,
  Bool-cases, inl, inr, ==_iff,
}
use clang_witness_inject.Fzy.Scores.{Scores}
use clang_witness_inject.Threads.Pool.{update}
use clang_witness_inject.Fzy.Search.{
  Pc, getting, merging, finished, MainPc, System, Job, after_batch, Step, create, get, find, sort,
  merge, finish, join, Reach, start, later,
}
use clang_witness_inject.Fzy.Search.Known.{left}
use clang_witness_inject.Fzy.Search.Partner.{next_worker_lem}
use clang_witness_inject.Fzy.Search.Held.{IsStage}

module _ (sc : Scores) (job : Job sc) where
  open job use {worker_count, qsort}

  abbrev Pcs : Type 0
  Pcs = ℕ → Option Pc

  -- A worker that merges, or has merged, is a multiple of its power.
  abbrev IsAligned : Pcs → Type 0
  IsAligned pcs =
      (w : ℕ) (l : Pc) (step : ℕ) → pcs w ≡ some l → IsStage l step → (q : ℕ) × (w ≡ q * 2 ^ step)

  IsAligned-work :
      (pcs : Pcs) (w : ℕ) (l' : Pc)
      → ((step : ℕ) → IsStage l' step → (q : ℕ) × (w ≡ q * 2 ^ step))
      → IsAligned pcs
      → IsAligned (update pcs w (some l'))
  IsAligned-work pcs w l' new a u l step e g = elim (Bool-cases (w == u)) [
    | inl same ↦
        let back : w ≡ u = (==_iff w u).0 same in
        let is : l' ≡ l = some-injective l' l (rw same at e) in
        let (q, place) = new step (subst (λ k. IsStage k step) (sym is) g) in (q, sym back ∙ place)
    | inr other ↦ a u l step (rw other at e) g
  ]

  IsStage-after_batch : (from to step : ℕ) → ¬ IsStage (after_batch (from, to)) step
  IsStage-after_batch from to step = elim (Bool-cases (from == to)) [
    | inl e ↦ λ h. absurd (rw e at h)
    | inr e ↦ λ h. absurd (rw e at h)
  ]

  step-IsAligned : {s t : System sc} → Step sc job s t → IsAligned s.pcs → IsAligned t.pcs
  step-IsAligned {s} (create i e) a = IsAligned-work s.pcs i getting (λ t g. absurd g) a
  step-IsAligned {s} (get w e) a =
      IsAligned-work s.pcs w _ (λ t g. absurd (IsStage-after_batch _ _ t g)) a
  step-IsAligned {s} (find w from to e r) a = IsAligned-work s.pcs w getting (λ t g. absurd g) a
  step-IsAligned {s} (sort w e r) a =
      IsAligned-work s.pcs w (merging 0) (λ t g. (w, rw (← g) (omega arith))) a
  step-IsAligned {s} (merge w step last e m lt f r q) a =
      let whole = (next_worker_lem w step m).1 in
      IsAligned-work s.pcs w (merging (suc step))
        (λ t g. (w / (2 * 2 ^ step), rw (← g, pow-suc 2 step) (whole ∙ grind arith))) a
  step-IsAligned {s} (finish w step e m) a =
      IsAligned-work s.pcs w (finished step) (λ t g. a w (merging step) t e g) a
  step-IsAligned {s} (join last e f r) a = a

  pub reach-IsAligned : {s : System sc} → Reach sc job s → IsAligned s.pcs
  reach-IsAligned start = λ w l step e. cc
  reach-IsAligned (later r st) = step-IsAligned st (reach-IsAligned r)

  -- The workers that choices_search has come by are created.
  abbrev AreCreated : MainPc sc → Pcs → Type 0
  AreCreated main pcs =
      (u : ℕ) → left sc job main ≤ u → u < worker_count → (l : Pc) × (pcs u ≡ some l)

  AreCreated-work :
      (main : MainPc sc) (pcs : Pcs) (w : ℕ) (l' : Pc)
      → AreCreated main pcs
      → AreCreated main (update pcs w (some l'))
  AreCreated-work main pcs w l' a u h lt = elim (Bool-cases (w == u)) [
    | inl same ↦ (l', rw same refl)
    | inr other ↦ let (l, e) = a u h lt in (l, rw other e)
  ]

  step-AreCreated :
      {s t : System sc} → Step sc job s t → AreCreated s.main s.pcs → AreCreated t.main t.pcs
  step-AreCreated {s} (create i e) a = λ u h lt. elim (Bool-cases (i == u)) [
    | inl same ↦ (getting, rw same refl)
    | inr other ↦
        let at : left sc job s.main ≡ suc i = ap (left sc job) e in
        let (l, k) = a u (ground arith) lt in (l, rw other k)
  ]
  step-AreCreated {s} (get w e) a = AreCreated-work s.main s.pcs w _ a
  step-AreCreated {s} (find w from to e r) a = AreCreated-work s.main s.pcs w _ a
  step-AreCreated {s} (sort w e r) a = AreCreated-work s.main s.pcs w _ a
  step-AreCreated {s} (merge w step last e m lt f r q) a = AreCreated-work s.main s.pcs w _ a
  step-AreCreated {s} (finish w step e m) a = AreCreated-work s.main s.pcs w _ a
  step-AreCreated {s} (join last e f r) a = λ u h lt. a u (omega (arith, ap (left sc job) e)) lt

  pub reach-AreCreated : {s : System sc} → Reach sc job s → AreCreated s.main s.pcs
  reach-AreCreated start = λ u h lt. absurd (omega arith)
  reach-AreCreated (later r st) = step-AreCreated st (reach-AreCreated r)
