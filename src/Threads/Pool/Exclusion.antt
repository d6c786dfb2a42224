-- ===== src/Threads/Pool/Exclusion.antt =====
-- Threads that take a lock before they touch what they share, and give it back afterwards: at most
-- one of them is between the two.
use clang_witness_inject.Prelude.{
  ℕ, ◌≡◌, refl, Bool, true, false, Option, none, some, arith, ap, ◌∙◌,
}
use clang_witness_inject.Threads.Pool.Locals.{reach-Each}
use clang_witness_inject.Threads.Pool.{
  Worker, update, System, Step, create, create_fails, all_created, join, all_joined, work, Reach,
  start, later,
}

-- What a move does with the lock: it takes it while it is free, gives it back, or leaves it alone.
-- `inside` is whether the thread stands between the two.
pub data Discipline : (locked locked' inside inside' : Bool) → Type 0 where
  takes : Discipline false true false true
  gives : {b : Bool} → Discipline b false true false
  keeps : {b p : Bool} → Discipline b b p p

-- The lock of a kind of thread, that its moves obey as long as the thread is as `Fine` tells, which
-- it is at its begin and stays.
pub record Lock (w : Worker) : Type 1 where
  pub Fine : w.Local → Type 0
  pub locked : w.Shared → Bool
  pub inside : w.Local → Bool
  pub prepared : (i : ℕ) (g : w.Shared) → locked (w.prepare i g) ≡ locked g
  pub begins_outside : (i : ℕ) → inside (w.begin i) ≡ false
  pub begins_fine : (i : ℕ) → Fine (w.begin i)
  pub stays_fine :
      (g : w.Shared) (l : w.Local) (g' : w.Shared) (l' : w.Local)
      → Fine l
      → w.Move g l g' l'
      → Fine l'
  pub obeys :
      (g : w.Shared) (l : w.Local) (g' : w.Shared) (l' : w.Local)
      → Fine l
      → w.Move g l g' l'
      → Discipline (locked g) (locked g') (inside l) (inside l')

module _ (w : Worker) (lock : Lock w) (n : ℕ) where
  open lock use {locked, inside}

  abbrev is_inside : Option w.Local → Bool
  is_inside none = false
  is_inside (some l) = inside l

  -- A thread inside holds the lock, and is the only one.
  record Exclusive (g : w.Shared) (ts : ℕ → Option w.Local) : Type 0 where
    held : (i : ℕ) → is_inside (ts i) ≡ true → locked g ≡ true
    alone : (i j : ℕ) → is_inside (ts i) ≡ true → is_inside (ts j) ≡ true → i ≡ j

  module _ (g g' : w.Shared) (ts : ℕ → Option w.Local) (i : ℕ) (x : Exclusive g ts) where
    -- The thread of round `i` is replaced.
    replace :
        (b b' p p' : Bool) (o : Option w.Local)
        → Discipline b b' p p'
        → locked g ≡ b
        → locked g' ≡ b'
        → is_inside (ts i) ≡ p
        → is_inside o ≡ p'
        → Exclusive g' (update ts i o)
    replace b b' p p' o takes e e' q q' = record {
      held = λ a h. ground (arith, x.held a);
      alone = λ a c h k. ground (arith, x.held a, x.held c);
    }
    replace b b' p p' o gives e e' q q' = record {
      held = λ a h. ground (arith, x.alone a i);
      alone = λ a c h k. ground (arith, x.alone a c);
    }
    replace b b' p p' o keeps e e' q q' = record {
      held = λ a h. ground (arith, x.held a, x.held i);
      alone = λ a c h k. ground (arith, x.alone a c, x.alone a i, x.alone i c);
    }

    -- A thread that is put in the place of another stands outside.
    begin_outside : (l : w.Local) → inside l ≡ false → Exclusive g (update ts i (some l))
    begin_outside l q = record {
      held = λ a h. ground (arith, x.held a);
      alone = λ a c h k. ground (arith, x.alone a c);
    }

  prepare-Exclusive :
      (i : ℕ) (g : w.Shared) (ts : ℕ → Option w.Local)
      → Exclusive g ts
      → Exclusive (w.prepare i g) ts
  prepare-Exclusive i g ts x = record {
    held = λ a h. lock.prepared i g ∙ x.held a h;
    alone = x.alone;
  }

  reach-Fine :
      {g : w.Shared} {s : System w}
      → Reach w n g s
      → (i : ℕ) (l : w.Local) → s.threads i ≡ some l
      → lock.Fine l
  reach-Fine =
      reach-Each w n (λ i l. lock.Fine l) (λ i h. lock.begins_fine i)
        (λ i g l g' l' p m. lock.stays_fine g l g' l' p m)

  step-Exclusive :
      {s t : System w}
      → Step w n s t
      → ((i : ℕ) (l : w.Local) → s.threads i ≡ some l → lock.Fine l)
      → Exclusive s.shared s.threads
      → Exclusive t.shared t.threads
  step-Exclusive {s} (create i e h) fine x =
      let y = prepare-Exclusive i s.shared s.threads x in
      let g = w.prepare i s.shared in
      begin_outside g g s.threads i y (w.begin i) (lock.begins_outside i)
  step-Exclusive {s} (create_fails i e h) fine x = prepare-Exclusive i s.shared s.threads x
  step-Exclusive (all_created i e h) fine x = x
  step-Exclusive (join i e h o) fine x = x
  step-Exclusive (all_joined i e h) fine x = x
  step-Exclusive {s} (work i {l} {l'} {g'} e m) fine x =
      replace s.shared g' s.threads i x (locked s.shared) (locked g') (inside l) (inside l')
        (some l') (lock.obeys s.shared l g' l' (fine i l e) m) refl refl (ap is_inside e) refl

  reach-Exclusive : {g : w.Shared} {s : System w} → Reach w n g s → Exclusive s.shared s.threads
  reach-Exclusive start = record { held = λ i h. cc; alone = λ i j h k. cc }
  reach-Exclusive (later r st) = step-Exclusive st (reach-Fine r) (reach-Exclusive r)

  -- In no reachable state do two threads stand inside.
  pub one_inside :
      {g : w.Shared} {s : System w} {l m : w.Local}
      → Reach w n g s
      → (i j : ℕ) → s.threads i ≡ some l
      → s.threads j ≡ some m
      → inside l ≡ true
      → inside m ≡ true
      → i ≡ j
  one_inside r i j e f p q = (reach-Exclusive r).alone i j (ap is_inside e ∙ p) (ap is_inside f ∙ q)
