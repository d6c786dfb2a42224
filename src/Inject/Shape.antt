-- ===== src/Inject/Shape.antt =====
-- What src/inject.cpp writes at each place, on every branch. `Rewriter` keeps the texts that are
-- inserted at one location in the order of the calls, so the text that comes to stand at a location
-- is the concatenation of what the calls insert there.
use clang_witness_inject.Prelude.{
  ◌≡◌, refl, ap, ◌∙◌, Bool, true, false, List, [], ◌∷◌, ◌++◌, Text, codes, to_string, if◌then◌else◌,
  Bool-cases, inl, inr, append-nil, append_assoc, arith, ◌⊎◌,
}
use clang_witness_inject.Witness.{Location, Invariant}
use clang_witness_inject.Clang.{Clang}
use clang_witness_inject.Inject.{WitnessInjectionConfig, Edit, insert_text, inject_location}

-- The call of the assert function that stands for an invariant, and its comment.
abbrev comment : Location → Text
comment place =
    codes "/* line="
    ++ to_string place.line
    ++ codes ", column="
    ++ to_string place.column
    ++ codes " */ "

abbrev pub assert_call : WitnessInjectionConfig → Invariant → Text
assert_call config v = config.assert_fn ++ codes "(" ++ comment v.location ++ v.value ++ codes ")"

abbrev pub assertion : WitnessInjectionConfig → Invariant → Text
assertion config v = config.assert_fn ++ codes "(" ++ comment v.location ++ v.value ++ codes "); "

module _ (c : Clang) (l : c.Loc) where
  -- `t`, if `k` is the location `l` that is looked at.
  abbrev pub at : c.Loc → Text → Text
  at k t = if c.same_loc k l then t else []

  -- The text that the calls insert at `l`.
  unfoldable pub text_at : List (Edit c) → Text
  text_at [] = []
  text_at (e ∷ es) = at e.loc e.text ++ text_at es

  pub text_at-nil : text_at [] ≡ []
  unfolding text_at
  text_at-nil = refl

  pub text_at-append : (xs ys : List (Edit c)) → text_at (xs ++ ys) ≡ text_at xs ++ text_at ys
  unfolding text_at
  text_at-append [] ys = refl
  text_at-append (x ∷ xs) ys = simp (text_at-append xs ys, append_assoc)

  pub text_at-insert_text : (k : c.Loc) (t : Text) → text_at (insert_text c k t) ≡ at k t
  unfolding text_at insert_text
  text_at-insert_text k t = append-nil (at k t)

  -- Texts inserted at one location one after the other.
  pub at-append : (k : c.Loc) (s t : Text) → at k s ++ at k t ≡ at k (s ++ t)
  at-append k s t = ground arith

  pub ruleset one_place =
      (text_at-nil, text_at-append, text_at-insert_text, at-append, append_assoc)

  pub text_at-inject_location :
      (k : c.Loc) (place : Location) → text_at (inject_location c k place) ≡ at k (comment place)
  unfolding inject_location
  text_at-inject_location k place = simp one_place
