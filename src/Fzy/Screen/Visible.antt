-- ===== src/Fzy/Screen/Visible.antt =====
-- The lines of the results that `draw` shows.
use clang_witness_inject.Prelude.{ℕ, ◌+◌, ◌-◌, ◌%◌, ◌^◌, ◌≤◌, ◌<◌, ◌≡◌, ◌↔◌, arith}
use clang_witness_inject.Fzy.Screen.{draw_start}

-- With two lines or more and the `scrolloff` 1 that the program sets, the screen holds the selected
-- result, all its lines are drawn, and none of them lies behind the results once it is scrolled.
pub draw_start_visible :
    (num_lines selection available : ℕ)
    → 2 ≤ num_lines
    → num_lines < 2 ^ 32
    → selection < available
    → available < 2 ^ 62
    → let start = draw_start num_lines 1 selection available in
      (start ≤ selection)
      × (selection < (start + num_lines) % 2 ^ 64)
      × ((start + num_lines) % 2 ^ 64 - start ≡ num_lines)
      × (0 < start → start + num_lines ≤ available)
unfolding draw_start
draw_start_visible num_lines selection available h k l m = ground arith

-- With one line, the line shows the selected result if and only if that is the last result, and
-- else the one behind it.
pub draw_start_one_line :
    (selection available : ℕ)
    → selection < available
    → available < 2 ^ 62
    → ((draw_start 1 1 selection available ≡ selection) ↔ (selection + 1 ≡ available))
      × (selection + 1 < available → draw_start 1 1 selection available ≡ selection + 1)
unfolding draw_start
draw_start_one_line selection available h m =
    ((λ e. ground arith, λ e. ground arith), λ l. ground arith)
