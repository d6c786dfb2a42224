-- ===== src/Fzy/Terminal.antt =====
-- The output functions of tty.c in examples/fzy.c: each appends bytes to the output of the terminal.
use clang_witness_inject.Prelude.{
  ℕ, ◌+◌, [], ◌∷◌, ◌++◌, Text, codes, to_string, ◌==◌, if◌then◌else◌,
}

-- `fgcolor` and what has been written to `fout`.
pub record Tty : Type 0 where
  pub fgcolor : ℕ
  pub out : Text

infixl 20 ◌|>◌
abbrev pub ◌|>◌ {ℓ κ} : {A : Type ℓ} {B : Type κ} → A → (A → B) → B
a |> f = f a

abbrev pub tty_printf : Text → Tty → Tty
tty_printf text tty = record tty { out = tty.out ++ text }

abbrev pub tty_putc : ℕ → Tty → Tty
tty_putc c tty = tty_printf (c ∷ []) tty

-- The bytes `ESC [`.
abbrev csi : Text
csi = 27 ∷ b'[' ∷ []

abbrev tty_sgr : ℕ → Tty → Tty
tty_sgr code tty = tty_printf (csi ++ to_string code ++ codes "m") tty

unfoldable pub tty_setfg : ℕ → Tty → Tty
tty_setfg fg tty =
    if fg == tty.fgcolor then tty else record (tty_sgr (30 + fg) tty) { fgcolor = fg }

unfoldable pub tty_setinvert : Tty → Tty
tty_setinvert = tty_sgr 7

unfoldable pub tty_setunderline : Tty → Tty
tty_setunderline = tty_sgr 4

unfoldable pub tty_setnormal : Tty → Tty
tty_setnormal tty = record (tty_sgr 0 tty) { fgcolor = 9 }

unfoldable pub tty_setnowrap : Tty → Tty
tty_setnowrap = tty_printf (csi ++ codes "?7l")

unfoldable pub tty_setwrap : Tty → Tty
tty_setwrap = tty_printf (csi ++ codes "?7h")

unfoldable pub tty_newline : Tty → Tty
tty_newline = tty_printf (csi ++ codes "K" ++ 10 ∷ [])

unfoldable pub tty_clearline : Tty → Tty
tty_clearline = tty_printf (csi ++ codes "K")

unfoldable pub tty_setcol : ℕ → Tty → Tty
tty_setcol col = tty_printf (csi ++ to_string (col + 1) ++ codes "G")

unfoldable pub tty_moveup : ℕ → Tty → Tty
tty_moveup i = tty_printf (csi ++ to_string i ++ codes "A")
