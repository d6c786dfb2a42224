-- ===== src/Fzy/Chars.antt =====
-- Bytes and C strings of examples/fzy.c: the tests of a character, in the C locale that the program
-- runs in, and the functions of string.h that it uses. A string is the list of its bytes before the
-- terminator, which stands behind its end as the character 0.
use clang_witness_inject.Prelude.{
  ℕ, zero, suc, ◌+◌, ◌-◌, ◌/◌, ◌%◌, ◌≤◌, ◌≡◌, refl, Bool, ◌&&◌, ◌||◌, List, [], ◌∷◌, ◌++◌, Text,
  length, leb, ◌==◌, if◌then◌else◌, arith, ap, ◌∙◌, length-append,
}

-- `isspace`.
abbrev pub is_space : ℕ → Bool
is_space c = c == 32 || (leb 9 c && leb c 13)

-- `tolower` and `toupper`, which leave a negative `char` as it is.
abbrev pub tolower : ℕ → ℕ
tolower c = if leb b'A' c && leb c b'Z' then c + 32 else c

abbrev pub toupper : ℕ → ℕ
toupper c = if leb b'a' c && leb c b'z' then c - 32 else c

-- A byte that `isprint` holds of, or with its top bit.
abbrev pub isprint_unicode : ℕ → Bool
isprint_unicode c = (leb 32 c && leb c 126) || (c / 128) % 2 == 1

-- No continuation byte of UTF-8: the top bit is 0, or the next one is 1.
abbrev pub is_boundary : ℕ → Bool
is_boundary c = (c / 128) % 2 == 0 || (c / 64) % 2 == 1

-- `s[i]`, up to the terminator.
abbrev pub char_at : Text → ℕ → ℕ
char_at [] i = 0
char_at (c ∷ s) zero = c
char_at (c ∷ s) (suc i) = char_at s i

abbrev pub take {ℓ} : {A : Type ℓ} → ℕ → List A → List A
take zero s = []
take (suc n) [] = []
take (suc n) (c ∷ s) = c ∷ take n s

abbrev pub drop {ℓ} : {A : Type ℓ} → ℕ → List A → List A
drop zero s = s
drop (suc n) [] = []
drop (suc n) (c ∷ s) = drop n s

pub length-take : (n : ℕ) (s : Text) → n ≤ length s → length (take n s) ≡ n
length-take zero s h = refl
length-take (suc n) [] h = absurd (omega arith)
length-take (suc n) (c ∷ s) h = ap suc (length-take n s (omega arith))

pub length-drop : (n : ℕ) (s : Text) → length (drop n s) ≡ length s - n
length-drop zero s = omega arith
length-drop (suc n) [] = omega arith
length-drop (suc n) (c ∷ s) = omega (arith, length-drop n s)

-- What `memmove` of the bytes of a string from `back` on, terminator included, to its place `at`
-- leaves, where `at` is no greater.
abbrev pub cut : Text → ℕ → ℕ → Text
cut s at back = take at s ++ drop back s

pub char_at-take_append :
    (s r : Text) (n : ℕ) → n ≤ length s → char_at (take n s ++ r) n ≡ char_at r 0
char_at-take_append s r zero h = refl
char_at-take_append [] r (suc n) h = absurd (omega arith)
char_at-take_append (c ∷ s) r (suc n) h = char_at-take_append s r n (omega arith)

char_at-drop : (s : Text) (n : ℕ) → char_at (drop n s) 0 ≡ char_at s n
char_at-drop s zero = refl
char_at-drop [] (suc n) = refl
char_at-drop (c ∷ s) (suc n) = char_at-drop s n

-- Behind the cut stands what stood behind the bytes that it takes away.
char_at-cut : (s : Text) (at back : ℕ) → at ≤ length s → char_at (cut s at back) at ≡ char_at s back
char_at-cut s at back h = char_at-take_append s (drop back s) at h ∙ char_at-drop s back

pub length-cut :
    (s : Text) (at back : ℕ)
    → at ≤ back
    → back ≤ length s
    → length (cut s at back) + back ≡ length s + at
length-cut s at back h k = omega (
  arith,
  length-append {0} (take at s) (drop back s),
  length-take at s (omega arith),
  length-drop back s,
)

char_at-length : (s : Text) → char_at s (length s) ≡ 0
char_at-length [] = refl
char_at-length (c ∷ s) = char_at-length s
