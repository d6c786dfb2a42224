-- ===== src/Samples/Lister.antt =====
-- A small search with fzy, at which its theorems are applied. The scores here are natural numbers.
use clang_witness_inject.Prelude.{
  ◌↔◌, map, ◌++◌, ℕ, ◌+◌, ◌-◌, ◌*◌, ◌^◌, ◌%◌, ◌≤◌, ◌<◌, ◌≡◌, ◌⊎◌, refl, true, false, none, some,
  List, [], ◌∷◌, Text, codes, to_string, ltb, ◌==◌, arith, ◌>>=◌,
}
use clang_witness_inject.Fzy.Chars.{char_at}
use clang_witness_inject.Fzy.Scores.{Scores}
use clang_witness_inject.Fzy.Choices.{Choice, ScoredResult, Choices}
use clang_witness_inject.Fzy.Match.{Rows, has_match, match, match_positions, setup_match_struct}
use clang_witness_inject.Fzy.Match.Subsequence.{Subsequence, has_match_iff}
use clang_witness_inject.Fzy.Match.Agree.{match-match_positions}
use clang_witness_inject.Fzy.Match.Backtrack.{match_positions_increasing}
use clang_witness_inject.Fzy.Match.Placed.{match_positions_lem}
use clang_witness_inject.Fzy.Reading.{split_buffer}
use clang_witness_inject.Fzy.Reading.Lines.{
  join_lines, HasRoom, split_buffer-join_lines, split_buffer-HasRoom,
}
use clang_witness_inject.Fzy.Terminal.{Tty}
use clang_witness_inject.Fzy.Screen.{Options, Environment, State, draw, draw_start}
use clang_witness_inject.Fzy.Screen.Visible.{draw_start_visible, draw_start_one_line}
use clang_witness_inject.Fzy.Interface.{
  key, resized, run, tty_interface_init, action_left, action_right, action_del_char, append_search,
  pagedown,
}
use clang_witness_inject.Fzy.Interface.Editing.{FindsShort}
use clang_witness_inject.Fzy.Interface.RoundTrips.{right-left, left-right, del_char-append_search}
use clang_witness_inject.Fzy.Interface.Pages.{pagedown_lem}
use clang_witness_inject.Fzy.Interface.Running.{session-Reads}
use clang_witness_inject.Fzy.Interface.Handled.{Reads}

abbrev pub numbers : Scores
numbers = record {
  Score = ℕ;
  infinity = 1000000;
  negate = λ a. 1000000 - a;
  of_int = λ a. a;
  milli = λ a. a;
  add = λ a b. a + b;
  times = λ a b. a * b;
  lt = ltb;
  eq = ◌==◌;
  format = to_string;
}

abbrev pub blank : Rows numbers
blank = record { d = λ j. 0; m = λ j. 0 }

abbrev pub names : List Choice
names =
    record { address = 0; str = codes "main.cpp" }
    ∷ record { address = 9; str = codes "util.cpp" }
    ∷ []

abbrev result : Choice → ScoredResult numbers
result c = record { score = 1; str = c }

-- A search that finds every line.
abbrev every : List Choice → Text → List (ScoredResult numbers)
every [] text = []
every (c ∷ cs) text = result c ∷ every cs text

abbrev surroundings : Environment numbers
surroundings = record { search = every; heap = λ i. blank; unset = blank; positions = λ i. 0 }

every-short : FindsShort numbers surroundings
every-short [] text h = tt
every-short (c ∷ cs) text h = (h.0, every-short cs text h.1)

abbrev settings : Options
settings = record {
  init_search = some (codes "m");
  show_scores = false;
  scrolloff = 1;
  num_lines = 2;
  prompt = codes "> ";
  show_info = false;
}

abbrev found_two : Choices numbers
found_two = record {
  capacity = 128;
  strings = names;
  results = every names [];
  selection = 1;
  worker_count = 1;
}

abbrev console : Tty
console = record { fgcolor = 9; out = [] }

abbrev typed : State numbers
typed = record {
  tty = console;
  choices = found_two;
  search = codes "ma";
  last_search = codes "m";
  cursor = 2;
  ambiguous_key_pending = false;
  input = [];
  exit = none;
  emitted = [];
}

session-Reads_example : Reads numbers settings surroundings every-short (
    tty_interface_init numbers settings surroundings console found_two >>= λ s.
    run numbers settings surroundings
      (key b'a' false ∷ key 27 true ∷ key b'[' true ∷ resized ∷ [])
      (draw numbers settings surroundings s))
session-Reads_example =
    session-Reads numbers settings surroundings every-short console found_two
      (key b'a' false ∷ key 27 true ∷ key b'[' true ∷ resized ∷ []) (omega arith) (omega arith)
      (λ text e. ground (arith, e))

right-left_example :
    action_right numbers settings surroundings (action_left numbers settings surroundings typed)
    ≡ typed
right-left_example = right-left numbers settings surroundings typed (omega arith) (omega arith) refl

del_char-append_search_example :
    action_del_char numbers settings surroundings
      (append_search numbers settings surroundings b'i' typed)
    ≡ typed
del_char-append_search_example =
    del_char-append_search numbers settings surroundings typed b'i' (omega arith) (omega arith) refl

draw_start_visible_example :
    (draw_start 10 1 30 50 ≤ 30)
    × (30 < (draw_start 10 1 30 50 + 10) % 2 ^ 64)
    × ((draw_start 10 1 30 50 + 10) % 2 ^ 64 - draw_start 10 1 30 50 ≡ 10)
    × (0 < draw_start 10 1 30 50 → draw_start 10 1 30 50 + 10 ≤ 50)
draw_start_visible_example =
    draw_start_visible 10 30 50 (omega arith) (omega arith) (omega arith) (omega arith)

draw_start_one_line_example :
    ((draw_start 1 1 3 5 ≡ 3) ↔ (3 + 1 ≡ 5)) × (3 + 1 < 5 → draw_start 1 1 3 5 ≡ 3 + 1)
draw_start_one_line_example = draw_start_one_line 3 5 (omega arith) (omega arith)

pagedown_lem_example :
    pagedown numbers settings surroundings 5 (record found_two { selection = 0 }) ≡ found_two
pagedown_lem_example =
    pagedown_lem numbers settings surroundings 5 (record found_two { selection = 0 }) (omega arith)
      (omega arith)

has_match_iff_example :
    (has_match (codes "u.c") (codes "util.cpp") ≡ true
      → Subsequence (codes "u.c") (codes "util.cpp"))
    × (Subsequence (codes "u.c") (codes "util.cpp")
        → has_match (codes "u.c") (codes "util.cpp") ≡ true)
has_match_iff_example = has_match_iff (codes "u.c") (codes "util.cpp")

match-match_positions_example :
    match numbers blank blank (codes "mc") (codes "main.cpp")
    ≡ (match_positions numbers (λ i. blank) blank (codes "mc") (codes "main.cpp") (λ i. 0)).0
match-match_positions_example =
    match-match_positions numbers blank blank (λ i. blank) blank (codes "mc") (codes "main.cpp")
      (λ i. 0)

match_positions_lem_example :
    let r =
      (match_positions numbers (λ i. blank) blank (codes "mc") (codes "main.cpp") (λ i. 99)).1 1 in
    (r ≡ 99)
    ⊎ ((r < 8)
        × (char_at (setup_match_struct (codes "mc") (codes "main.cpp")).lower_needle 1
            ≡ char_at (setup_match_struct (codes "mc") (codes "main.cpp")).lower_haystack r))
match_positions_lem_example =
    match_positions_lem numbers refl (λ i. blank) blank (codes "mc") (codes "main.cpp") (λ i. 99) 1
      (omega arith) (omega arith) (omega arith)

match_positions_increasing_example :
    let r =
      (match_positions numbers (λ i. blank) blank (codes "mc") (codes "main.cpp") (λ i. 99)).1 in
    (r 0 ≡ 99) ⊎ (r 1 ≡ 99) ⊎ (r 0 < r 1)
match_positions_increasing_example =
    match_positions_increasing numbers (λ i. blank) blank (codes "mc") (codes "main.cpp") (λ i. 99)
      0 1 (omega arith) (omega arith)

abbrev two_lines : List Text
two_lines = codes "m" ∷ codes "ab" ∷ []

split_buffer-join_lines_example :
    map (λ c. c.str) (split_buffer numbers 10 64 (join_lines 10 two_lines) found_two).strings
    ≡ map (λ c. c.str) names ++ two_lines
split_buffer-join_lines_example =
    split_buffer-join_lines numbers 10 64 two_lines found_two
      ((λ h. cc, ((refl, refl), tt)), ((λ h. cc, ((refl, refl), ((refl, refl), tt))), tt))

split_buffer-HasRoom_example :
    HasRoom numbers (split_buffer numbers 10 64 (codes "a\n\nb") found_two)
split_buffer-HasRoom_example =
    split_buffer-HasRoom numbers 10 64 (codes "a\n\nb") found_two (omega arith, omega arith)
      (omega arith) (omega arith)

abbrev at_start : State numbers
at_start = record typed { cursor = 1 }

left-right_example :
    action_left numbers settings surroundings (action_right numbers settings surroundings at_start)
    ≡ at_start
left-right_example = left-right numbers settings surroundings at_start (omega arith) refl
