-- ===== src/Fzy/Match/Subsequence.antt =====
-- What `has_match` decides.
use clang_witness_inject.Prelude.{
  ℕ, ◌≡◌, ◌↔◌, inl, inr, refl, true, ◌||◌, some, [], ◌∷◌, Text, ◌==◌, Bool-cases, Option-cases,
  subst,
}
use clang_witness_inject.Fzy.Chars.{toupper}
use clang_witness_inject.Fzy.Match.{strcasechr, has_match}

-- A character of the string that a character of the search stands for: itself, or the upper case
-- letter of it.
abbrev Accepts : ℕ → ℕ → Type 0
Accepts c h = (h == c || h == toupper c) ≡ true

-- The characters of the search stand in the string in their order, with others in between.
pub data Subsequence : Text → Text → Type 0 where
  done : {haystack : Text} → Subsequence [] haystack
  skip :
      {h : ℕ} {needle haystack : Text}
      → Subsequence needle haystack
      → Subsequence needle (h ∷ haystack)
  match_here :
      {c h : ℕ} {needle haystack : Text}
      → Accepts c h
      → Subsequence needle haystack
      → Subsequence (c ∷ needle) (h ∷ haystack)

Subsequence-tail :
    {c : ℕ} {needle haystack : Text}
    → Subsequence (c ∷ needle) haystack
    → Subsequence needle haystack
Subsequence-tail (skip q) = skip (Subsequence-tail q)
Subsequence-tail (match_here a q) = skip q

-- Where `strcasechr` finds a character, the rest of the search may follow.
strcasechr_sound :
    (haystack : Text) (c : ℕ) {needle rest : Text}
    → strcasechr haystack c ≡ some rest
    → Subsequence needle rest
    → Subsequence (c ∷ needle) haystack
unfolding strcasechr
strcasechr_sound [] c e q = cc
strcasechr_sound (h ∷ s) c {needle} {rest} e q = elim (Bool-cases (h == c || h == toupper c)) [
  | inl a ↦ let same : rest ≡ s = cc (rw a at e) in match_here a (subst (Subsequence needle) same q)
  | inr other ↦ skip (strcasechr_sound s c (rw other at e) q)
]

-- The first place is as good as any other.
strcasechr_complete :
    (haystack : Text) (c : ℕ) {needle : Text}
    → Subsequence (c ∷ needle) haystack
    → (rest : Text) × (strcasechr haystack c ≡ some rest) × Subsequence needle rest
unfolding strcasechr
strcasechr_complete [] c q = elim q [ ]
strcasechr_complete (h ∷ s) c (match_here a q) = (s, rw a, q)
strcasechr_complete (h ∷ s) c (skip q) = elim (Bool-cases (h == c || h == toupper c)) [
  | inl a ↦ (s, rw a, Subsequence-tail q)
  | inr other ↦ let (rest, e, p) = strcasechr_complete s c q in (rest, rw other e, p)
]

has_match_sound :
    (needle haystack : Text) → has_match needle haystack ≡ true → Subsequence needle haystack
unfolding has_match
has_match_sound [] haystack h = done
has_match_sound (c ∷ needle) haystack h = elim (Option-cases (strcasechr haystack c)) [
  | inl e ↦ cc (rw (e, has_match) at h)
  | inr (rest, e) ↦
      strcasechr_sound haystack c e (has_match_sound needle rest (rw (e, has_match) at h))
]

has_match_complete :
    (needle haystack : Text) → Subsequence needle haystack → has_match needle haystack ≡ true
unfolding has_match
has_match_complete [] haystack q = refl
has_match_complete (c ∷ needle) haystack q =
    let (rest, e, p) = strcasechr_complete haystack c q in
    rw (e, has_match) (has_match_complete needle rest p)

-- A line matches exactly if the characters of the search, lower case letters also as upper case
-- ones, stand in it in their order.
pub has_match_iff :
    (needle haystack : Text) → (has_match needle haystack ≡ true) ↔ Subsequence needle haystack
has_match_iff needle haystack =
    (has_match_sound needle haystack, has_match_complete needle haystack)
