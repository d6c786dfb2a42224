-- ===== src/Threads/Pool/Tally.antt =====
-- Sums over the threads, and a shared number that each move changes as it changes such a sum.
use clang_witness_inject.Prelude.{
  ℕ, zero, suc, ◌+◌, ◌<◌, ◌≤◌, ◌≡◌, ◌≢◌, refl, false, Option, none, some, ◌==◌, arith, Bool-cases,
  inl, inr, ap, Option-cases,
}
use clang_witness_inject.Threads.Pool.{
  Worker, update, System, Step, create, create_fails, all_created, join, all_joined, work, Reach,
  start, later,
}
use clang_witness_inject.Threads.Pool.Locals.{reach-Each}
use clang_witness_inject.Threads.Pool.Joined.{creating-none}

module _ {A : Type 0} (f : A → ℕ) where
  abbrev pub weight : Option A → ℕ
  weight none = 0
  weight (some l) = f l

  -- The sum over the first `n` threads.
  unfoldable pub sum : ℕ → (ℕ → Option A) → ℕ
  sum zero ts = 0
  sum (suc n) ts = sum n ts + weight (ts n)

  pub sum-none : (n : ℕ) → sum n (λ i. none) ≡ 0
  unfolding sum
  sum-none zero = refl
  sum-none (suc n) = omega (arith, sum-none n)

  sum-update_of_le :
      (n i : ℕ) (ts : ℕ → Option A) (o : Option A) → n ≤ i → sum n (update ts i o) ≡ sum n ts
  unfolding sum
  sum-update_of_le zero i ts o h = refl
  sum-update_of_le (suc n) i ts o h = ground (arith, sum-update_of_le n i ts o)

  pub sum-update :
      (n i : ℕ) (ts : ℕ → Option A) (o : Option A)
      → i < n
      → sum n (update ts i o) + weight (ts i) ≡ sum n ts + weight o
  unfolding sum
  sum-update zero i ts o h = absurd (omega arith)
  sum-update (suc n) i ts o h = elim (Bool-cases (i == n)) [
    | inl last ↦ ground (arith, sum-update_of_le n i ts o)
    | inr below ↦ ground (arith, sum-update n i ts o)
  ]

  pub sum-le : ((l : A) → f l ≤ 1) → (n : ℕ) (ts : ℕ → Option A) → sum n ts ≤ n
  unfolding sum
  sum-le small zero ts = omega arith
  sum-le small (suc n) ts = elim (Option-cases (ts n)) [
    | inl e ↦ omega (arith, sum-le small n ts, ap weight e)
    | inr (l, e) ↦ omega (arith, sum-le small n ts, ap weight e, small l)
  ]

  pub weight-le-sum : (n i : ℕ) (ts : ℕ → Option A) → i < n → weight (ts i) ≤ sum n ts
  unfolding sum
  weight-le-sum zero i ts h = absurd (omega arith)
  weight-le-sum (suc n) i ts h = elim (Bool-cases (i == n)) [
    | inl last ↦ ground arith
    | inr below ↦ ground (arith, weight-le-sum n i ts)
  ]

  -- Two threads together weigh no more than all.
  pub pair-le-sum :
      (n i j : ℕ) (ts : ℕ → Option A)
      → i < n
      → j < n
      → i ≢ j
      → weight (ts i) + weight (ts j) ≤ sum n ts
  pair-le-sum n i j ts h k ne =
      let rest = update ts i none in
      ground (arith, sum-update n i ts none h, weight-le-sum n j rest k)

pub sum-zero : {A : Type 0} (n : ℕ) (ts : ℕ → Option A) → sum (λ l. 0) n ts ≡ 0
unfolding sum
sum-zero zero ts = refl
sum-zero (suc n) ts = elim (Option-cases (ts n)) [
  | inl e ↦ rw e (omega (arith, sum-zero n ts))
  | inr (l, e) ↦ rw e (omega (arith, sum-zero n ts))
]

-- A number of the shared memory that goes with the sums of two weights: each move changes it by the
-- change of `up` less the change of `down`.
pub record Tally (w : Worker) : Type 0 where
  pub value : w.Shared → ℕ
  pub up : w.Local → ℕ
  pub down : w.Local → ℕ
  pub begins : (i : ℕ) → (up (w.begin i) ≡ 0) × (down (w.begin i) ≡ 0)
  pub prepared : (i : ℕ) (g : w.Shared) → value (w.prepare i g) ≡ value g
  pub balanced :
      (g : w.Shared) (l : w.Local) (g' : w.Shared) (l' : w.Local)
      → w.Move g l g' l'
      → value g' + down l' + up l ≡ value g + down l + up l'

module _ (w : Worker)
    (stops : (g : w.Shared) (l : w.Local) (g' : w.Shared) (l' : w.Local)
      → w.Move g l g' l'
      → w.ended l ≡ false)
    (tally : Tally w) (n : ℕ) where
  open tally use {value, up, down}

  pub thread-lt :
      {g : w.Shared} {s : System w}
      → Reach w n g s
      → (i : ℕ) (l : w.Local) → s.threads i ≡ some l
      → i < n
  thread-lt = reach-Each w n (λ i l. i < n) (λ i h. h) (λ i g l g' l' p m. p)

  abbrev Tallies : ℕ → System w → Type 0
  Tallies k s = value s.shared + sum down n s.threads ≡ k + sum up n s.threads

  step-Tallies :
      (k : ℕ) {g : w.Shared} {s t : System w}
      → Reach w n g s
      → Step w n s t
      → Tallies k s
      → Tallies k t
  step-Tallies k {s = s} r (create i e h) x =
      let absent : s.threads i ≡ none = creating-none w n stops r e i (omega arith) in
      let new = some (w.begin i) in
      omega (
        arith,
        x,
        tally.prepared i s.shared,
        tally.begins i,
        ap (weight up) absent,
        ap (weight down) absent,
        sum-update up n i s.threads new h,
        sum-update down n i s.threads new h,
      )
  step-Tallies k {s = s} r (create_fails i e h) x = omega (arith, x, tally.prepared i s.shared)
  step-Tallies k r (all_created i e h) x = x
  step-Tallies k r (join i e h o) x = x
  step-Tallies k r (all_joined i e h) x = x
  step-Tallies k {s = s} r (work i {l} {l'} {g'} e m) x =
      let h = thread-lt r i l e in
      omega (
        arith,
        x,
        tally.balanced s.shared l g' l' m,
        ap (weight up) e,
        ap (weight down) e,
        sum-update up n i s.threads (some l') h,
        sum-update down n i s.threads (some l') h,
      )

  pub reach-Tallies : {g : w.Shared} {s : System w} → Reach w n g s → Tallies (value g) s
  reach-Tallies start = omega (arith, sum-none up n, sum-none down n)
  reach-Tallies (later r st) = step-Tallies _ r st (reach-Tallies r)
