-- ===== src/Threads/ValueBarrier/Order.antt =====
-- The order of the write and the reads of `data` in examples/value-barrier.c.
use clang_witness_inject.Prelude.{
  ℕ, suc, ◌≡◌, ◌≢◌, refl, Bool, true, false, Option, some, ◌==◌, arith, ap, ◌∙◌, sym, Bool-cases,
  inl, inr,
}
use clang_witness_inject.Threads.Pool.{update}
use clang_witness_inject.Threads.ValueBarrier.{
  Globals, Pc, locking, testing, sleeping, unlocking, reading, finished, Move, lock, wait, wake,
  leave, unlock, read, MainPc, creating, joining, writing, main_locking, setting, returned, System,
  MainMove, write, main_lock, set, broadcast, main_unlock, Step, create, create_fails, all_created,
  go, join, all_joined, work, Reach, start, later,
}

-- `main` has set `ready`.
abbrev announced : MainPc → Bool
announced (creating i) = false
announced writing = false
announced main_locking = false
announced setting = false
announced _ = true

-- A thread has left the loop that waits.
abbrev passed : Pc → Bool
passed unlocking = true
passed reading = true
passed (finished x) = true
passed _ = false

record Ordered (g : Globals) (m : MainPc) (ts : ℕ → Option Pc) : Type 0 where
  early : g.ready ≡ true → announced m ≡ true
  late : (a : ℕ) (l : Pc) → ts a ≡ some l → passed l ≡ true → g.ready ≡ true
  reads : (a x : ℕ) → ts a ≡ some (finished x) → x ≡ g.value

-- A move of `main` between its loops.
Ordered-MainMove :
    (ts : ℕ → Option Pc) (g : Globals) (m : MainPc) (g' : Globals) (m' : MainPc)
    → MainMove g m g' m'
    → Ordered g m ts
    → Ordered g' m' ts
Ordered-MainMove ts g m g' m' (write _ random) o = record {
  early = o.early;
  late = o.late;
  reads = λ a x e. cc (o.early (o.late a (finished x) e refl));
}
Ordered-MainMove ts g m g' m' (main_lock _ free) o = record {
  early = o.early;
  late = o.late;
  reads = o.reads;
}
Ordered-MainMove ts g m g' m' (set _) o = record {
  early = λ h. refl;
  late = λ a l e h. refl;
  reads = o.reads;
}
Ordered-MainMove ts g m g' m' (broadcast _) o = record {
  early = λ h. refl;
  late = o.late;
  reads = o.reads;
}
Ordered-MainMove ts g m g' m' (main_unlock _) o = record {
  early = λ h. refl;
  late = o.late;
  reads = o.reads;
}

module _ (m : MainPc) (ts : ℕ → Option Pc) (i : ℕ) where
  -- A thread gets to a place where it has not left the loop.
  Ordered-waiting :
      (g g' : Globals) (l : Pc)
      → Ordered g m ts
      → g'.ready ≡ g.ready
      → g'.value ≡ g.value
      → passed l ≡ false
      → Ordered g' m (update ts i (some l))
  Ordered-waiting g g' l o same_ready same_value h = record {
    early = λ e. o.early (sym same_ready ∙ e);
    late = λ a k e p. elim (Bool-cases (i == a)) [
      | inl here ↦ cc
      | inr other ↦ same_ready ∙ o.late a k (ground arith) p
    ];
    reads = λ a x e. elim (Bool-cases (i == a)) [
      | inl here ↦
          let at_end : l ≡ finished x = ground arith in
          let done : passed l ≡ true = ap passed at_end in cc
      | inr other ↦ o.reads a x (ground arith) ∙ sym same_value
    ];
  }

  -- A thread that has left the loop goes on, with what it has read once it has ended.
  Ordered-passed :
      (g g' : Globals) (l : Pc)
      → Ordered g m ts
      → g'.ready ≡ g.ready
      → g'.value ≡ g.value
      → g.ready ≡ true
      → ((x : ℕ) → l ≡ finished x → x ≡ g.value)
      → Ordered g' m (update ts i (some l))
  Ordered-passed g g' l o same_ready same_value now own = record {
    early = λ e. o.early now;
    late = λ a k e p. same_ready ∙ now;
    reads = λ a x e. elim (Bool-cases (i == a)) [
      | inl here ↦ let at_end : l ≡ finished x = ground arith in own x at_end ∙ sym same_value
      | inr other ↦ o.reads a x (ground arith) ∙ sym same_value
    ];
  }

  Ordered-Move :
      (g : Globals) (l : Pc) (g' : Globals) (l' : Pc)
      → Move g l g' l'
      → ts i ≡ some l
      → Ordered g m ts
      → Ordered g' m (update ts i (some l'))
  Ordered-Move g l g' l' (lock _ free) e o = Ordered-waiting g g' testing o refl refl refl
  Ordered-Move g l g' l' (wait _ h) e o = Ordered-waiting g g' sleeping o refl refl refl
  Ordered-Move g l g' l' (wake _ free) e o = Ordered-waiting g g' testing o refl refl refl
  Ordered-Move g l g' l' (leave _ h) e o = Ordered-passed g g' unlocking o refl refl h (λ x q. cc)
  Ordered-Move g l g' l' (unlock _) e o =
      Ordered-passed g g' reading o refl refl (o.late i unlocking e refl) (λ x q. cc)
  Ordered-Move g l g' l' (read _) e o =
      Ordered-passed g g' (finished g.value) o refl refl (o.late i reading e refl)
        (λ x q. ground (arith, q))

-- A move of `main` in one of its loops, where what it has announced stays.
Ordered-again :
    (g : Globals) (m m' : MainPc) (ts : ℕ → Option Pc)
    → Ordered g m ts
    → announced m ≡ announced m'
    → Ordered g m' ts
Ordered-again g m m' ts o same = record {
  early = λ e. sym same ∙ o.early e;
  late = o.late;
  reads = o.reads;
}

step-Ordered :
    {n : ℕ} {s t : System}
    → Step n s t
    → Ordered s.shared s.main s.threads
    → Ordered t.shared t.main t.threads
step-Ordered {s = s} (create i e h) o =
    Ordered-waiting (creating (suc i)) s.threads i s.shared s.shared locking
      (Ordered-again s.shared s.main (creating (suc i)) s.threads o (ap announced e)) refl refl refl
step-Ordered {s = s} (create_fails i e h) o =
    Ordered-again s.shared s.main (creating (suc i)) s.threads o (ap announced e)
step-Ordered {s = s} (all_created i e h) o =
    Ordered-again s.shared s.main writing s.threads o (ap announced e)
step-Ordered {s = s} (go {p} {p'} {g'} e m) o =
    Ordered-MainMove s.threads s.shared p g' p' m
      (Ordered-again s.shared s.main p s.threads o (ap announced e))
step-Ordered {s = s} (join i e h over) o =
    Ordered-again s.shared s.main (joining (suc i)) s.threads o (ap announced e)
step-Ordered {s = s} (all_joined i e h) o =
    Ordered-again s.shared s.main returned s.threads o (ap announced e)
step-Ordered {s = s} (work i {l} {l'} {g'} e m) o =
    Ordered-Move s.main s.threads i s.shared l g' l' m e o

reach-Ordered : {random : ℕ} {s : System} → Reach random s → Ordered s.shared s.main s.threads
reach-Ordered start = record { early = λ e. cc; late = λ a l e h. cc; reads = λ a x e. cc }
reach-Ordered (later r st) = step-Ordered st (reach-Ordered r)

-- While `main` stands before its write of `data`, no thread stands before the read, so they are not
-- a race.
barrier_no_race :
    {random : ℕ} {s : System}
    → Reach random s
    → s.main ≡ writing
    → (a : ℕ) → s.threads a ≢ some reading
barrier_no_race r e a q =
    let o = reach-Ordered r in cc (o.early (o.late a reading q refl), ap announced e)

-- Every thread that has ended has read the value that `data` has then: no write comes behind a read.
pub barrier_reads_written :
    {random : ℕ} {s : System} {x : ℕ}
    → Reach random s
    → (a : ℕ) → s.threads a ≡ some (finished x)
    → x ≡ s.shared.value
barrier_reads_written {x = x} r a e = (reach-Ordered r).reads a x e
