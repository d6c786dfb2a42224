-- ===== src/Fzy/Line.antt =====
-- Positions in the line that the user edits, in tty_interface.c of examples/fzy.c.
pub mod Steps
pub mod Legal
use clang_witness_inject.Prelude.{
  ℕ, zero, suc, Bool, ◌||◌, Option, none, some, [], ◌∷◌, Text, length, ltb, ◌==◌, if◌then◌else◌,
}
use clang_witness_inject.Fzy.Chars.{is_boundary, char_at}

-- The loop of `action_del_char`, and the decrements of `action_left`, from a cursor above 0: back to
-- the first byte of a character, or to 0.
unfoldable pub back : Text → ℕ → ℕ
back s zero = zero
back s (suc c) = if is_boundary (char_at s c) || c == 0 then c else back s c

-- The loops of `action_del_word`: back over the characters that `p` holds of.
unfoldable pub back_while : (ℕ → Bool) → Text → ℕ → ℕ
back_while p s zero = zero
back_while p s (suc c) = if p (char_at s c) then back_while p s c else suc c

-- How many continuation bytes a string begins with.
unfoldable pub continuation : Text → ℕ
continuation [] = 0
continuation (c ∷ s) = if is_boundary c then 0 else suc (continuation s)

-- `strncpy` of at most 4096 bytes; `none` where it writes no terminator.
unfoldable pub strncpy : Text → Option Text
strncpy src = if ltb (length src) 4096 then some src else none
