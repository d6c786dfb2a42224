-- ===== src/Inject/Balance.antt =====
-- The brackets in what src/inject.cpp writes.
use clang_witness_inject.Prelude.{
  ℕ, ◌+◌, ◌≡◌, refl, ◌&&◌, List, [], ◌∷◌, ◌++◌, Text, codes, to_string, to_string-IsDigit, IsDigit,
  All, arith, if◌then◌else◌, ◌==◌, Bool-cases, inl, inr, ◌⊎◌, ◌<◌,
}
use clang_witness_inject.Witness.{Location, Invariant}
use clang_witness_inject.Clang.{Clang, Kind, is_stmt, is_decl}
use clang_witness_inject.Inject.{is_compound, is_switch_label}
use clang_witness_inject.Inject.{
  WitnessInjectionConfig, Edit, insert_text, inject_location, insert_seq_stmt, braces,
  inject_at_stmt, inject_at_decl, inject_invariant_at, inject_loop_invariant_at, inject_for,
  inject_while_or_do, inject_loop_at, inject_location_at,
}

pub data Bracket : Type 0 where
  brace paren : Bracket

abbrev opening : Bracket → ℕ
opening brace = b'{'
opening paren = b'('

abbrev closing : Bracket → ℕ
closing brace = b'}'
closing paren = b')'

-- How often a byte stands in a text, and in all that is inserted.
unfoldable pub count : ℕ → Text → ℕ
count b [] = 0
count b (x ∷ xs) = (if x == b then 1 else 0) + count b xs

unfoldable pub total : {c : Clang} → ℕ → List (Edit c) → ℕ
total b [] = 0
total b (e ∷ es) = count b e.text + total b es

-- As many opening as closing brackets of a kind.
abbrev pub IsEven : Bracket → Text → Type 0
IsEven k t = count (opening k) t ≡ count (closing k) t

abbrev pub AreEven : {c : Clang} → Bracket → List (Edit c) → Type 0
AreEven k es = total (opening k) es ≡ total (closing k) es

count-digits : (b : ℕ) (t : Text) → All IsDigit t → (b < b'0') ⊎ (b'9' < b) → count b t ≡ 0
unfolding count
count-digits b [] h off = refl
count-digits b (x ∷ xs) h off = ground (arith, count-digits b xs h.1 off)

count-to_string : (b n : ℕ) → (b < b'0') ⊎ (b'9' < b) → count b (to_string n) ≡ 0
count-to_string b n off = count-digits b (to_string n) (to_string-IsDigit n) off

-- The fixed texts that are written together.
abbrev Evens : Bracket → Text → Text → Type 0
Evens k s t = count (opening k) s + count (opening k) t ≡ count (closing k) s + count (closing k) t

call_texts : (k : Bracket) → Evens k (codes "(") (codes "); ")
unfolding count
call_texts brace = refl
call_texts paren = refl

for_texts : (k : Bracket) → Evens k (codes "(") (codes ")")
unfolding count
for_texts brace = refl
for_texts paren = refl

brace_texts : (k : Bracket) → Evens k (codes "{ ") (codes "; }")
unfolding count
brace_texts brace = refl
brace_texts paren = refl

comma_text : (k : Bracket) → IsEven k (codes ", ")
unfolding count
comma_text brace = refl
comma_text paren = refl

module _ (c : Clang) where
  total-append : (b : ℕ) (xs ys : List (Edit c)) → total b (xs ++ ys) ≡ total b xs + total b ys
  unfolding total
  total-append b [] ys = omega arith
  total-append b (x ∷ xs) ys = omega (arith, total-append b xs ys)

  total-insert_text : (b : ℕ) (l : c.Loc) (t : Text) → total b (insert_text c l t) ≡ count b t
  unfolding total insert_text
  total-insert_text b l t = omega arith

  pub AreEven-append :
      (k : Bracket) (xs ys : List (Edit c)) → AreEven k xs → AreEven k ys → AreEven k (xs ++ ys)
  AreEven-append k xs ys h g =
      omega (arith, total-append (opening k) xs ys, total-append (closing k) xs ys)

  -- The digits of a number hold no bracket.
  numbers :
      (k : Bracket) (n : ℕ)
      → (count (opening k) (to_string n) ≡ 0) × (count (closing k) (to_string n) ≡ 0)
  numbers brace n =
      (count-to_string b'{' n (inr (omega arith)), count-to_string b'}' n (inr (omega arith)))
  numbers paren n =
      (count-to_string b'(' n (inl (omega arith)), count-to_string b')' n (inl (omega arith)))

  ruleset calls = (total-append, total-insert_text)

  location-AreEven :
      (k : Bracket) (l : c.Loc) (place : Location) → AreEven k (inject_location c l place)
  unfolding inject_location count
  location-AreEven brace l place =
      simp calls (omega (arith, numbers brace place.line, numbers brace place.column))
  location-AreEven paren l place =
      simp calls (omega (arith, numbers paren place.line, numbers paren place.column))

  module _ (config : WitnessInjectionConfig) (k : Bracket) (fn : IsEven k config.assert_fn) where
    pub none-AreEven : AreEven {c = c} k []
    unfolding total
    none-AreEven = refl

    braces-AreEven : (n : c.Node) → AreEven k (braces c config n)
    unfolding braces
    braces-AreEven n = elim (Bool-cases (insert_seq_stmt c (c.parents n))) [
      | inl e ↦ rw (e, braces) (simp calls (brace_texts k))
      | inr e ↦ rw (e, braces) none-AreEven
    ]

    module _ (v : Invariant) (value : IsEven k v.value) where
      at_stmt-AreEven : (l : c.Loc) (n : c.Node) → AreEven k (inject_at_stmt c config l n v)
      unfolding inject_at_stmt
      at_stmt-AreEven l n = simp calls (
          omega (arith, call_texts k, braces-AreEven n, location-AreEven k l v.location, fn, value))

      at_decl-AreEven : (l : c.Loc) (n : c.Node) → AreEven k (inject_at_decl c config l n v)
      unfolding inject_at_decl
      at_decl-AreEven l n =
          simp calls (omega (arith, call_texts k, location-AreEven k l v.location, fn, value))

      invariant_at-AreEven :
          (l : c.Loc) (n : c.Node) → AreEven k (inject_invariant_at c config l n v)
      unfolding inject_invariant_at
      invariant_at-AreEven l n = elim (Bool-cases (is_stmt (c.kind n))) [
        | inl e ↦ rw (e, inject_invariant_at) (at_stmt-AreEven l n)
        | inr e ↦ elim (Bool-cases (is_decl (c.kind n))) [
          | inl d ↦ rw (e, d, inject_invariant_at) (at_decl-AreEven l n)
          | inr d ↦ rw (e, d, inject_invariant_at) none-AreEven
        ]
      ]

      pub location_at-AreEven :
          (l : c.Loc) (n : c.Node) → AreEven k (inject_location_at c config l v n)
      unfolding inject_location_at
      location_at-AreEven l n =
          elim (Bool-cases (config.skip_switchcases && is_switch_label (c.kind n))) [
            | inl e ↦ rw (e, inject_location_at) none-AreEven
            | inr e ↦ rw (e, inject_location_at) (invariant_at-AreEven _ n)
          ]

      body-AreEven : (b : c.Node) → AreEven k (inject_loop_invariant_at c config b v)
      unfolding inject_loop_invariant_at
      body-AreEven b = elim (Bool-cases (is_compound (c.kind b))) [
        | inl e ↦
            rw (e, inject_loop_invariant_at)
              (simp calls
                (omega (arith, call_texts k, location-AreEven k (c.rbrac b) v.location, fn, value)))
        | inr e ↦ rw (e, inject_loop_invariant_at) (invariant_at-AreEven _ b)
      ]

      for-AreEven : (n : c.Node) → AreEven k (inject_for c config n v)
      unfolding inject_for
      for-AreEven n =
          let place = location-AreEven k (c.rparen n) v.location in
          elim (Bool-cases (c.has_inc n)) [
            | inl e ↦
                rw (e, inject_for)
                  (simp calls (omega (arith, for_texts k, comma_text k, place, fn, value)))
            | inr e ↦
                rw (e, inject_for)
                  (simp calls (omega (arith, for_texts k, none-AreEven, place, fn, value)))
          ]

      while_or_do-AreEven : (n : c.Node) → AreEven k (inject_while_or_do c config n v)
      unfolding inject_while_or_do
      while_or_do-AreEven n =
          AreEven-append k _ _ (body-AreEven (c.body n)) (invariant_at-AreEven _ n)

      pub loop_at-AreEven : (m : Kind) (n : c.Node) → AreEven k (inject_loop_at c config m n v)
      unfolding inject_loop_at
      loop_at-AreEven Kind.for_stmt n = for-AreEven n
      loop_at-AreEven Kind.while_stmt n = while_or_do-AreEven n
      loop_at-AreEven Kind.do_stmt n = while_or_do-AreEven n
      loop_at-AreEven _ n = none-AreEven
