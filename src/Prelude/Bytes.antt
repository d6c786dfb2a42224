-- ===== src/Prelude/Bytes.antt =====
-- Texts as lists of bytes, their comparison, and `std::to_string` of an unsigned number.
use Prim.Native.Char.{code}
use Prim.Native.String.{String}
use Prim.Native.Nat.{ℕ, zero, suc, ◌+◌, ◌*◌, ◌/◌, ◌%◌, ◌<◌, ◌-◌, ◌≤◌}
use mathlib.Core.Path.{◌≡◌, refl, ap}
use mathlib.Core.Logic.{inl, inr}
use mathlib.Core.Bool.{Bool, true, false, ◌&&◌}
use mathlib.Core.List.{List, [], ◌∷◌}
use native.Mathlib.Omega.{arith}
use clang_witness_inject.Prelude.Lists.{All}
use clang_witness_inject.Prelude.Tests.{ltb, ◌==◌, if◌then◌else◌, Bool-cases, ltb→lt}

abbrev pub Text : Type 0
Text = List ℕ

-- The bytes of an ASCII literal.
abbrev pub codes : String → Text
codes String.[] = []
codes (String.◌∷◌ c s) = code c ∷ codes s

unfoldable pub text_eq : Text → Text → Bool
text_eq [] [] = true
text_eq (a ∷ s) (b ∷ t) = a == b && text_eq s t
text_eq [] (b ∷ t) = false
text_eq (a ∷ s) [] = false

pub text_eq_sound : (s t : Text) → text_eq s t ≡ true → s ≡ t
unfolding text_eq
text_eq_sound [] [] h = refl
text_eq_sound (a ∷ s) (b ∷ t) h = ground (arith, text_eq_sound s t)
text_eq_sound [] (b ∷ t) h = ground arith
text_eq_sound (a ∷ s) [] h = ground arith

pub text_eq_refl : (s : Text) → text_eq s s ≡ true
unfolding text_eq
text_eq_refl [] = refl
text_eq_refl (a ∷ s) = ground (arith, text_eq_refl s)

-- The decimal digits of `n`, most significant first, before `rest`.
digits_fuel : ℕ → ℕ → Text → Text
digits_fuel zero n rest = rest
digits_fuel (suc f) n rest =
    let more = digits_fuel f (n / 10) ((b'0' + n % 10) ∷ rest) in
    if ltb n 10 then (b'0' + n) ∷ rest else more

unfoldable pub to_string : ℕ → Text
unfolding digits_fuel
to_string n = digits_fuel (suc n) n []

-- What a decimal text stands for, read after the digits that `acc` stands for.
unfoldable pub value_of : ℕ → Text → ℕ
value_of acc [] = acc
value_of acc (d ∷ ds) = value_of (acc * 10 + (d - b'0')) ds

digits_fuel-value :
    (f n : ℕ) (rest : Text) → n < f → value_of 0 (digits_fuel f n rest) ≡ value_of n rest
unfolding digits_fuel value_of
digits_fuel-value zero n rest h = absurd (omega arith)
digits_fuel-value (suc f) n rest h = elim (Bool-cases (ltb n 10)) [
  | inl small ↦ rw small (ap (λ (m : ℕ). value_of m rest) (omega arith))
  | inr big ↦
      rw (big, digits_fuel-value f (n / 10) ((b'0' + n % 10) ∷ rest) (ground arith))
        (ap (λ (m : ℕ). value_of m rest) (omega arith))
]

-- The digits of a number read back as the number.
pub value_of-to_string : (n : ℕ) → value_of 0 (to_string n) ≡ n
unfolding to_string value_of
value_of-to_string n = digits_fuel-value (suc n) n [] (omega arith)

abbrev pub IsDigit : ℕ → Type 0
IsDigit d = (b'0' ≤ d) × (d ≤ b'9')

digits_fuel-IsDigit :
    (f n : ℕ) (rest : Text) → All IsDigit rest → All IsDigit (digits_fuel f n rest)
unfolding digits_fuel
digits_fuel-IsDigit zero n rest h = h
digits_fuel-IsDigit (suc f) n rest h = elim (Bool-cases (ltb n 10)) [
  | inl small ↦ rw small ((omega arith, omega (arith, ltb→lt n 10 small)), h)
  | inr big ↦
      rw big
        (digits_fuel-IsDigit f (n / 10) ((b'0' + n % 10) ∷ rest) ((omega arith, omega arith), h))
]

pub to_string-IsDigit : (n : ℕ) → All IsDigit (to_string n)
unfolding to_string
to_string-IsDigit n = digits_fuel-IsDigit (suc n) n [] tt
