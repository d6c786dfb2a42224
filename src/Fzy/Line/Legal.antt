-- ===== src/Fzy/Line/Legal.antt =====
-- The line that the user edits, within its array.
use clang_witness_inject.Prelude.{
  ℕ, ◌+◌, ◌≤◌, ◌<◌, ◌≡◌, ◌∷◌, ◌++◌, Text, length, length-append, arith,
}
use clang_witness_inject.Fzy.Chars.{length-cut, take, drop, cut, length-take, length-drop}
use clang_witness_inject.Fzy.Line.{continuation}
use clang_witness_inject.Fzy.Line.Steps.{continuation-le}

-- The cursor stands in the line, and the line leaves room for its terminator.
pub record IsLine (search : Text) (cursor : ℕ) : Type 0 where
  pub cursor_le : cursor ≤ length search
  pub search_le : length search ≤ 4096

pub IsLine-cut : (s : Text) (c b : ℕ) → c ≤ b → IsLine s b → IsLine (cut s c b) c
IsLine-cut s c b h l = record {
  cursor_le = omega (arith, length-cut s c b h l.cursor_le, l.cursor_le);
  search_le = omega (arith, length-cut s c b h l.cursor_le, l.cursor_le, l.search_le);
}

pub IsLine-at : (s : Text) (c b : ℕ) → c ≤ b → IsLine s b → IsLine s c
IsLine-at s c b h l = record { cursor_le = omega (arith, l.cursor_le); search_le = l.search_le }

pub IsLine-forward :
    (s : Text) (c : ℕ)
    → c < length s
    → length s ≤ 4096
    → IsLine s (c + 1 + continuation (drop (c + 1) s))
IsLine-forward s c h k = record {
  cursor_le = continuation-le s (c + 1) (omega arith);
  search_le = k;
}

pub IsLine-end : (s : Text) → length s ≤ 4096 → IsLine s (length s)
IsLine-end s h = record { cursor_le = omega arith; search_le = h }

pub IsLine-insert :
    (s : Text) (c ch : ℕ)
    → length s < 4096
    → IsLine s c
    → IsLine (take c s ++ ch ∷ drop c s) (c + 1)
IsLine-insert s c ch h l =
    let whole : length (take c s ++ ch ∷ drop c s) ≡ length s + 1 = omega (
      arith,
      length-append {0} (take c s) (ch ∷ drop c s),
      length-take c s l.cursor_le,
      length-drop c s,
      l.cursor_le,
    ) in
    record { cursor_le = omega (arith, whole, l.cursor_le); search_le = omega (arith, whole, h) }
