-- ===== src/Threads/Pool/Joined.antt =====
-- When `main` has returned, every thread that it started is over.
use clang_witness_inject.Prelude.{
  ℕ, ◌<◌, ◌≤◌, ◌≡◌, refl, false, Option, none, some, ◌==◌, arith, ◌⊎◌, subst, Bool-cases, ==_iff,
  inl, inr, ap, sym, ◌∙◌,
}
use mathlib.Core.Option.{some-injective}
use clang_witness_inject.Threads.Pool.{
  Worker, MainPc, creating, joining, returned, update, System, IsOver, Step, create, create_fails,
  all_created, join, all_joined, work, Reach, start, later,
}

module _ (w : Worker) (n : ℕ)
    (stops : (g : w.Shared) (l : w.Local) (g' : w.Shared) (l' : w.Local)
      → w.Move g l g' l'
      → w.ended l ≡ false) where
  -- In round `k` of the first loop no later thread has begun; in round `k` of the second the
  -- earlier ones are over.
  abbrev Joins : MainPc → (ℕ → Option w.Local) → Type 0
  Joins (creating k) ts = (i : ℕ) → (k ≤ i) ⊎ (n ≤ i) → ts i ≡ none
  Joins (joining k) ts = (i : ℕ) → (i < k) ⊎ (n ≤ i) → IsOver w (ts i)
  Joins returned ts = (i : ℕ) → IsOver w (ts i)

  -- A thread that moves is not over.
  IsOver-moves :
      (g : w.Shared) (l : w.Local) (g' : w.Shared) (l' : w.Local) (o : Option w.Local)
      → w.Move g l g' l'
      → o ≡ some l
      → ¬ IsOver w o
  IsOver-moves g l g' l' none m e h = cc
  IsOver-moves g l g' l' (some k) m e h = cc (stops g l g' l' m, ap w.ended (some-injective k l e))

  work-Joins :
      (p : MainPc) (ts : ℕ → Option w.Local) (i : ℕ) (g : w.Shared) (l : w.Local) (g' : w.Shared)
      (l' : w.Local)
      → ts i ≡ some l
      → w.Move g l g' l'
      → Joins p ts
      → Joins p (update ts i (some l'))
  work-Joins (creating k) ts i g l g' l' e m j = λ a q. elim (Bool-cases (i == a)) [
    | inl same ↦
        let at : ts a ≡ none = j a q in
        let back : i ≡ a = (==_iff i a).0 same in absurd (cc (ap ts back))
    | inr other ↦ rw other (j a q)
  ]
  work-Joins (joining k) ts i g l g' l' e m j = λ a q. elim (Bool-cases (i == a)) [
    | inl same ↦
        absurd (IsOver-moves g l g' l' (ts a) m (ap ts (sym ((==_iff i a).0 same)) ∙ e) (j a q))
    | inr other ↦ rw other (j a q)
  ]
  work-Joins returned ts i g l g' l' e m j = λ a. elim (Bool-cases (i == a)) [
    | inl same ↦
        absurd (IsOver-moves g l g' l' (ts a) m (ap ts (sym ((==_iff i a).0 same)) ∙ e) (j a))
    | inr other ↦ rw other (j a)
  ]

  step-Joins : {s t : System w} → Step w n s t → Joins s.main s.threads → Joins t.main t.threads
  step-Joins {s} (create i e h) j = λ a q.
      let at : Joins (creating i) s.threads = subst (λ p. Joins p s.threads) e j in
      ground (arith, at a)
  step-Joins {s} (create_fails i e h) j = λ a q.
      let at : Joins (creating i) s.threads = subst (λ p. Joins p s.threads) e j in
      at a (ground arith)
  step-Joins {s} (all_created i e h) j = λ a q.
      let at : Joins (creating i) s.threads = subst (λ p. Joins p s.threads) e j in
      subst (IsOver w) (sym (at a (inr (omega arith)))) tt
  step-Joins {s} (join i e h o) j = λ a q.
      let at : Joins (joining i) s.threads = subst (λ p. Joins p s.threads) e j in
      elim (Bool-cases (i == a)) [
        | inl same ↦ subst (λ b. IsOver w (s.threads b)) ((==_iff i a).0 same) o
        | inr other ↦ at a (ground arith)
      ]
  step-Joins {s} (all_joined i e h) j = λ a.
      let at : Joins (joining i) s.threads = subst (λ p. Joins p s.threads) e j in
      at a (omega arith)
  step-Joins {s} (work i {l} {l'} {g'} e m) j = work-Joins s.main s.threads i s.shared l g' l' e m j

  reach-Joins : {g : w.Shared} {s : System w} → Reach w n g s → Joins s.main s.threads
  reach-Joins start = λ i q. refl
  reach-Joins (later r st) = step-Joins st (reach-Joins r)

  pub returned-IsOver :
      {g : w.Shared} {s : System w}
      → Reach w n g s
      → s.main ≡ returned
      → (i : ℕ) → IsOver w (s.threads i)
  returned-IsOver {s = s} r e = subst (λ p. Joins p s.threads) e (reach-Joins r)

  -- While `main` is in its first loop, no thread of this round or a later one has begun.
  pub creating-none :
      {g : w.Shared} {s : System w} {k : ℕ}
      → Reach w n g s
      → s.main ≡ creating k
      → (i : ℕ) → k ≤ i
      → s.threads i ≡ none
  creating-none {s = s} r e i h = subst (λ p. Joins p s.threads) e (reach-Joins r) i (inl h)
