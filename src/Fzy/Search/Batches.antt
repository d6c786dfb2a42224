-- ===== src/Fzy/Search/Batches.antt =====
-- The batches of the workers of choices_search in examples/fzy.c end at the last line.
use clang_witness_inject.Prelude.{
  ℕ, zero, suc, ◌+◌, ◌-◌, ◌^◌, ◌<◌, ◌≤◌, ◌≡◌, refl, ap, ◌∙◌, Bool, true, false, Option, some, List,
  [], ◌∷◌, ◌++◌, length, ◌==◌, arith, Bool-cases, inl, inr, ==_iff,
}
use clang_witness_inject.Fzy.Chars.{take, drop}
use clang_witness_inject.Fzy.Scores.{Scores}
use clang_witness_inject.Threads.Pool.{update}
use clang_witness_inject.Fzy.Search.{
  worker_get_next_batch, Pc, getting, searching, sorting, merging, finished, System, Job,
  after_batch, Step, create, get, find, sort, merge, finish, join, Reach, start, later,
}

pub take-append-drop : {A : Type 0} (n : ℕ) (xs : List A) → take n xs ++ drop n xs ≡ xs
take-append-drop zero xs = refl
take-append-drop (suc n) [] = refl
take-append-drop (suc n) (x ∷ xs) = ap (λ r. x ∷ r) (take-append-drop n xs)

drop-nil : {A : Type 0} (n : ℕ) → drop {A = A} n [] ≡ []
drop-nil zero = refl
drop-nil (suc n) = refl

pub drop_behind :
    {A : Type 0} (m k : ℕ) (xs : List A) → m ≤ k → drop (k - m) (drop m xs) ≡ drop k xs
drop_behind zero k xs h = let all : k - 0 ≡ k = omega arith in rw all refl
drop_behind (suc m) zero xs h = absurd (omega arith)
drop_behind (suc m) (suc k) [] h = drop-nil (suc k - suc m)
drop_behind (suc m) (suc k) (x ∷ xs) h =
    let same : suc k - suc m ≡ k - m = omega arith in rw same (drop_behind m k xs (omega arith))

pub drop_all : {A : Type 0} (xs : List A) → drop (length xs) xs ≡ []
drop_all [] = refl
drop_all (x ∷ xs) = drop_all xs

-- A batch ends behind its start, inside the lines.
pub worker_get_next_batch_lem :
    (size processed : ℕ)
    → size + 512 < 2 ^ 64
    → processed ≤ size
    → let (from, to) = worker_get_next_batch size processed in
      (from ≡ processed) × (from ≤ to) × (to ≤ size) × (from ≡ to → to ≡ size)
unfolding worker_get_next_batch
worker_get_next_batch_lem size processed fits le = grind arith

-- The worker has found that no lines are left.
abbrev pub gone : Pc → Bool
gone getting = false
gone (searching from to) = false
gone _ = true

gone-after_batch : (from to : ℕ) → gone (after_batch (from, to)) ≡ true → from ≡ to
gone-after_batch from to h = elim (Bool-cases (from == to)) [
  | inl e ↦ (==_iff from to).0 e
  | inr e ↦ cc (rw e at h)
]

module _ (sc : Scores) (job : Job sc) (fits : length job.strings + 512 < 2 ^ 64) where
  open job use {strings}

  pub record IsAdvanced (s : System sc) : Type 0 where
    pub processed_le : s.processed ≤ length strings
    pub over : (u : ℕ) (l : Pc) → s.pcs u ≡ some l → gone l ≡ true → s.processed ≡ length strings

  IsAdvanced-work :
      (pcs : ℕ → Option Pc) (processed next w : ℕ) (l' : Pc)
      → (processed ≡ length strings → next ≡ length strings)
      → (gone l' ≡ true → next ≡ length strings)
      → ((u : ℕ) (l : Pc) → pcs u ≡ some l → gone l ≡ true → processed ≡ length strings)
      → (u : ℕ) (l : Pc) → update pcs w (some l') u ≡ some l
      → gone l ≡ true
      → next ≡ length strings
  IsAdvanced-work pcs processed next w l' keep new old u l e g = elim (Bool-cases (w == u)) [
    | inl here ↦ let same : l' ≡ l = cc (rw here at e) in new (ap gone same ∙ g)
    | inr other ↦ keep (old u l (rw other at e) g)
  ]

  step-IsAdvanced : {s t : System sc} → Step sc job s t → IsAdvanced s → IsAdvanced t
  step-IsAdvanced {s} (create i e) a = record {
    processed_le = a.processed_le;
    over = IsAdvanced-work s.pcs s.processed s.processed i getting (λ h. h) (λ h. cc) a.over;
  }
  step-IsAdvanced {s} (get w e) a =
      let (from, to) = worker_get_next_batch (length strings) s.processed in
      let laws = worker_get_next_batch_lem (length strings) s.processed fits a.processed_le in
      record {
        processed_le = laws.2;
        over =
            IsAdvanced-work s.pcs s.processed _ w (after_batch (from, to))
              (λ h. omega (arith, laws, h)) (λ h. laws.3 (gone-after_batch from to h)) a.over;
      }
  step-IsAdvanced {s} (find w x y e r) a = record {
    processed_le = a.processed_le;
    over = IsAdvanced-work s.pcs s.processed s.processed w getting (λ h. h) (λ h. cc) a.over;
  }
  step-IsAdvanced {s} (sort w e r) a = record {
    processed_le = a.processed_le;
    over =
        IsAdvanced-work s.pcs s.processed s.processed w (merging 0) (λ h. h)
          (λ h. a.over w sorting e refl) a.over;
  }
  step-IsAdvanced {s} (merge w step last e h lt f r q) a = record {
    processed_le = a.processed_le;
    over =
        IsAdvanced-work s.pcs s.processed s.processed w (merging (suc step)) (λ h. h)
          (λ h. a.over w (merging step) e refl) a.over;
  }
  step-IsAdvanced {s} (finish w step e h) a = record {
    processed_le = a.processed_le;
    over =
        IsAdvanced-work s.pcs s.processed s.processed w (finished step) (λ h. h)
          (λ h. a.over w (merging step) e refl) a.over;
  }
  step-IsAdvanced {s} (join last e f r) a = record { processed_le = a.processed_le; over = a.over }

  pub reach-IsAdvanced : {s : System sc} → Reach sc job s → IsAdvanced s
  reach-IsAdvanced start = record { processed_le = omega arith; over = λ u l e. cc }
  reach-IsAdvanced (later r st) = step-IsAdvanced st (reach-IsAdvanced r)
