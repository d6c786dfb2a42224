-- ===== src/Fzy/Line/Steps.antt =====
-- The steps of the cursor over whole characters, and what typing and deleting leave.
use clang_witness_inject.Prelude.{
  ℕ, zero, suc, ◌+◌, ◌≤◌, ◌<◌, ◌≡◌, ◌⊎◌, inl, inr, refl, ap, Bool, true, false, ◌||◌, [], ◌∷◌, ◌++◌,
  Text, length, ◌==◌, arith, Bool-cases, subst,
}
use clang_witness_inject.Fzy.Chars.{is_boundary, char_at, take, drop, cut}
use clang_witness_inject.Fzy.Line.{back, back_while, continuation}

pub back-lt : (s : Text) (c : ℕ) → 0 < c → back s c < c
unfolding back
back-lt s zero h = absurd (omega arith)
back-lt s (suc zero) h = ground arith
back-lt s (suc (suc c)) h = ground (arith, back-lt s (suc c))

back-boundary : (s : Text) (c : ℕ) → (is_boundary (char_at s (back s c)) ≡ true) ⊎ (back s c ≡ 0)
unfolding back
back-boundary s zero = inr refl
back-boundary s (suc c) = elim (Bool-cases (is_boundary (char_at s c))) [
  | inl first ↦ rw first (inl first)
  | inr inside ↦ rw inside (elim (Bool-cases (c == 0)) [
    | inl start ↦ rw start (inr (ground arith))
    | inr later ↦ rw later (back-boundary s c)
  ])
]

pub back_while-le : (p : ℕ → Bool) (s : Text) (c : ℕ) → back_while p s c ≤ c
unfolding back_while
back_while-le p s zero = omega arith
back_while-le p s (suc c) = ground (arith, back_while-le p s c)

pub continuation_boundary :
    (s : Text) (c : ℕ) → is_boundary (char_at s c) ≡ true → continuation (drop c s) ≡ 0
unfolding continuation
continuation_boundary [] zero h = refl
continuation_boundary [] (suc c) h = refl
continuation_boundary (b ∷ s) zero h = rw h
continuation_boundary (b ∷ s) (suc c) h = continuation_boundary s c h

continuation_inside :
    (s : Text) (c : ℕ)
    → c < length s
    → is_boundary (char_at s c) ≡ false
    → continuation (drop c s) ≡ suc (continuation (drop (suc c) s))
unfolding continuation
continuation_inside [] c h e = absurd (omega arith)
continuation_inside (b ∷ s) zero h e = rw e
continuation_inside (b ∷ s) (suc c) h e = continuation_inside s c (omega arith) e

-- From the first byte of a character the way forward ends where the next one begins.
pub forward_back :
    (s : Text) (c : ℕ)
    → 0 < c
    → c ≤ length s
    → back s c + 1 + continuation (drop (suc (back s c)) s) ≡ c + continuation (drop c s)
unfolding back
forward_back s zero h k = absurd (omega arith)
forward_back s (suc c) h k = elim (Bool-cases (is_boundary (char_at s c) || c == 0)) [
  | inl stop ↦ rw stop (omega arith)
  | inr on ↦ rw on (
      omega (
        arith,
        forward_back s c (ground arith) (omega arith),
        continuation_inside s c (omega arith) (ground arith),
      ))
]

pub continuation-le : (s : Text) (c : ℕ) → c ≤ length s → c + continuation (drop c s) ≤ length s
unfolding continuation
continuation-le [] zero h = omega arith
continuation-le [] (suc c) h = absurd (omega arith)
continuation-le (b ∷ s) zero h = ground (arith, continuation-le s 0)
continuation-le (b ∷ s) (suc c) h = omega (arith, continuation-le s c (omega arith))

forward_boundary : (s : Text) (c : ℕ) → is_boundary (char_at s (c + continuation (drop c s))) ≡ true
unfolding continuation
forward_boundary [] zero = refl
forward_boundary [] (suc c) = refl
forward_boundary (b ∷ s) zero = elim (Bool-cases (is_boundary b)) [
  | inl first ↦ rw first first
  | inr inside ↦ rw inside (
      subst (λ (n : ℕ). is_boundary (char_at (b ∷ s) n) ≡ true)
        (let e : suc (0 + continuation s) ≡ 0 + suc (continuation s) = omega arith in e)
        (forward_boundary s 0))
]
forward_boundary (b ∷ s) (suc c) =
    subst (λ (n : ℕ). is_boundary (char_at (b ∷ s) n) ≡ true)
      (let e : suc (c + continuation (drop c s)) ≡ suc c + continuation (drop c s) = omega arith in
        e)
      (forward_boundary s c)

take_append : (s r : Text) (c : ℕ) → c ≤ length s → take c (take c s ++ r) ≡ take c s
take_append s r zero h = refl
take_append [] r (suc c) h = absurd (omega arith)
take_append (b ∷ s) r (suc c) h = ap (b ∷◌) (take_append s r c (omega arith))

drop_append : (s r : Text) (b c : ℕ) → c ≤ length s → drop (suc c) (take c s ++ b ∷ r) ≡ r
drop_append s r b zero h = refl
drop_append [] r b (suc c) h = absurd (omega arith)
drop_append (d ∷ s) r b (suc c) h = drop_append s r b c (omega arith)

take-drop : (s : Text) (c : ℕ) → take c s ++ drop c s ≡ s
take-drop s zero = refl
take-drop [] (suc c) = refl
take-drop (b ∷ s) (suc c) = ap (b ∷◌) (take-drop s c)

-- To take away the byte that was put in.
pub cut_insert : (s : Text) (b c : ℕ) → c ≤ length s → cut (take c s ++ b ∷ drop c s) c (suc c) ≡ s
cut_insert s b c h =
    rw (take_append s (b ∷ drop c s) c h, drop_append s (drop c s) b c h) (take-drop s c)

-- Behind a byte that is a character of its own or the first of one.
pub back_first : (s : Text) (c : ℕ) → is_boundary (char_at s c) ≡ true → back s (suc c) ≡ c
unfolding back
back_first s c h = rw h

continuation_first : (s : Text) (k : ℕ) → k < continuation s → is_boundary (char_at s k) ≡ false
unfolding continuation
continuation_first [] k h = absurd (omega arith)
continuation_first (b ∷ s) zero h = elim (Bool-cases (is_boundary b)) [
  | inl first ↦ let none_left = rw first at h in absurd (omega (arith, none_left))
  | inr inside ↦ inside
]
continuation_first (b ∷ s) (suc k) h = elim (Bool-cases (is_boundary b)) [
  | inl first ↦ let none_left = rw first at h in absurd (omega (arith, none_left))
  | inr inside ↦ let more = rw inside at h in continuation_first s k (omega (arith, more))
]

continuation_at :
    (s : Text) (m k : ℕ) → k < continuation (drop m s) → is_boundary (char_at s (m + k)) ≡ false
unfolding continuation
continuation_at s zero k h =
    let same : 0 + k ≡ k = omega arith in rw same (continuation_first s k h)
continuation_at [] (suc m) k h = absurd (omega arith)
continuation_at (b ∷ s) (suc m) k h =
    let same : suc m + k ≡ suc (m + k) = omega arith in rw same (continuation_at s m k h)

-- Back over the continuation bytes behind the first byte of a character.
pub back-continuation :
    (s : Text) (c k : ℕ)
    → is_boundary (char_at s c) ≡ true
    → k ≤ continuation (drop (suc c) s)
    → back s (suc c + k) ≡ c
unfolding back
back-continuation s c zero e h =
    let same : suc c + 0 ≡ suc c = omega arith in rw same (back_first s c e)
back-continuation s c (suc k) e h =
    let same : suc c + suc k ≡ suc (suc c + k) = omega arith in
    let inside = continuation_at s (suc c) k (omega arith) in
    let later : (suc c + k == 0) ≡ false = ground arith in
    rw (same, back, inside, later) (back-continuation s c k e (omega arith))

-- Behind the byte that is put in stands what stood at its place.
char_at-insert :
    (s : Text) (b c : ℕ) → c ≤ length s → char_at (take c s ++ b ∷ drop c s) (suc c) ≡ char_at s c
char_at-insert [] b zero h = refl
char_at-insert (d ∷ s) b zero h = refl
char_at-insert [] b (suc c) h = absurd (omega arith)
char_at-insert (d ∷ s) b (suc c) h = char_at-insert s b c (omega arith)
