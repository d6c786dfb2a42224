-- ===== src/Fzy/Scores.antt =====
-- The `double` arithmetic of the scores of examples/fzy.c, which the language gives and this model
-- does not compute: a type with the operations and the literals that the program uses.
use clang_witness_inject.Prelude.{ℕ, ◌≡◌, Bool, true, false, Text}

pub record Scores : Type 1 where
  pub Score : Type 0
  pub infinity : Score
  pub negate : Score → Score
  pub of_int : ℕ → Score
  -- The literal that is this many thousandths.
  pub milli : ℕ → Score
  pub add : Score → Score → Score
  pub times : Score → Score → Score
  pub lt : Score → Score → Bool
  pub eq : Score → Score → Bool
  -- What `printf` writes for `%5.2f`.
  pub format : Score → Text

-- The comparison of values none of which is a NaN. `match` makes none: it adds finite values to
-- finite values or to the negative infinity.
pub record IsOrder (sc : Scores) : Type 0 where
  pub eq_refl : (a : sc.Score) → sc.eq a a ≡ true
  pub eq_lt : (a b : sc.Score) → sc.lt a b ≡ true → sc.eq a b ≡ false
  pub eq_sym : (a b : sc.Score) → sc.eq a b ≡ true → sc.eq b a ≡ true
  pub eq_trans : (a b c : sc.Score) → sc.eq a b ≡ true → sc.eq b c ≡ true → sc.eq a c ≡ true
  pub lt_trans : (a b c : sc.Score) → sc.lt a b ≡ true → sc.lt b c ≡ true → sc.lt a c ≡ true
  pub lt_eq : (a b c : sc.Score) → sc.lt a b ≡ true → sc.eq b c ≡ true → sc.lt a c ≡ true
  pub eq_lt_trans : (a b c : sc.Score) → sc.eq a b ≡ true → sc.lt b c ≡ true → sc.lt a c ≡ true
  pub lt_asym : (a b : sc.Score) → sc.lt a b ≡ true → sc.lt b a ≡ false
  pub total : (a b : sc.Score) → sc.eq a b ≡ false → sc.lt a b ≡ false → sc.lt b a ≡ true
