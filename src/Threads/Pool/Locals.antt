-- ===== src/Threads/Pool/Locals.antt =====
-- What every thread keeps by itself, whatever the others do.
use clang_witness_inject.Prelude.{
  ℕ, ◌<◌, ◌≡◌, Option, some, ◌==◌, arith, subst, Bool-cases, ==_iff, inl, inr,
}
use clang_witness_inject.Threads.Pool.{
  Worker, update, System, Step, create, create_fails, all_created, join, all_joined, work, Reach,
  start, later,
}

module _ (w : Worker) (n : ℕ) (P : ℕ → w.Local → Type 0)
    (begins : (i : ℕ) → i < n → P i (w.begin i))
    (moves : (i : ℕ) (g : w.Shared) (l : w.Local) (g' : w.Shared) (l' : w.Local)
      → P i l
      → w.Move g l g' l'
      → P i l') where
  abbrev Each : (ℕ → Option w.Local) → Type 0
  Each ts = (i : ℕ) (l : w.Local) → ts i ≡ some l → P i l

  Each-update :
      (ts : ℕ → Option w.Local) (a : ℕ) (k : w.Local)
      → P a k
      → Each ts
      → Each (update ts a (some k))
  Each-update ts a k p each i l e = elim (Bool-cases (a == i)) [
    | inl same ↦
        let kept : k ≡ l = ground arith in
        subst (λ b. P b l) ((==_iff a i).0 same) (subst (P a) kept p)
    | inr other ↦ each i l (ground arith)
  ]

  step-Each : {s t : System w} → Step w n s t → Each s.threads → Each t.threads
  step-Each {s} (create i e h) each = Each-update s.threads i (w.begin i) (begins i h) each
  step-Each (create_fails i e h) each = each
  step-Each (all_created i e h) each = each
  step-Each (join i e h o) each = each
  step-Each (all_joined i e h) each = each
  step-Each {s} (work i {l} {l'} {g'} e m) each =
      Each-update s.threads i l' (moves i s.shared l g' l' (each i l e) m) each

  -- What holds of a thread at its begin, and is kept by its moves, holds of it in every reachable
  -- state.
  pub reach-Each : {g : w.Shared} {s : System w} → Reach w n g s → Each s.threads
  reach-Each start = λ i l e. cc
  reach-Each (later r st) = step-Each st (reach-Each r)
