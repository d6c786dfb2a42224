-- ===== src/Fzy/Choices.antt =====
-- choices.c in examples/fzy.c: the lines that are read and the results of a search.
pub mod Paging
use clang_witness_inject.Prelude.{
  ℕ, zero, suc, ◌+◌, ◌-◌, ◌*◌, ◌%◌, ◌^◌, ◌≡◌, Bool, true, false, Option, none, some, List, [], ◌∷◌,
  ◌++◌, Text, length, ltb, ◌==◌, if◌then◌else◌, All, subst,
}
use clang_witness_inject.Fzy.Scores.{Scores}

-- A `char const *` with the string that it points to.
pub record Choice : Type 0 where
  pub address : ℕ
  pub str : Text

module _ (sc : Scores) where
  open sc use {Score, lt, eq}

  pub record ScoredResult : Type 0 where
    pub score : Score
    pub str : Choice

  -- `choices_t` but for the buffer. `size` and `available` are the lengths of the two lists.
  pub record Choices : Type 0 where
    pub capacity : ℕ
    pub strings : List Choice
    pub results : List ScoredResult
    pub selection : ℕ
    pub worker_count : ℕ

  abbrev pub available : Choices → ℕ
  available c = length c.results

  -- Whether the result is -1; else it is 1.
  unfoldable pub cmpchoice : ScoredResult → ScoredResult → Bool
  cmpchoice a b =
      if eq a.score b.score
      then ltb a.str.address b.str.address
      else if lt a.score b.score
      then false
      else true

  unfoldable pub choices_reset_search : Choices → Choices
  choices_reset_search c = record c { results = []; selection = 0 }

  -- `processors` is what `sysconf` answers.
  unfoldable pub choices_init : (workers processors : ℕ) → Choices
  choices_init workers processors = record {
    capacity = 128;
    strings = [];
    results = [];
    selection = 0;
    worker_count = if workers == 0 then processors else workers;
  }

  unfoldable pub choices_destroy : Choices → Choices
  choices_destroy c = record c { capacity = 0; strings = []; results = []; selection = 0 }

  -- The new capacity wraps.
  unfoldable pub choices_add : Choice → Choices → Choices
  unfolding choices_reset_search
  choices_add choice c =
      let r = choices_reset_search c in
      record r {
        capacity = if length r.strings == r.capacity then (r.capacity * 2) % 2 ^ 64 else r.capacity;
        strings = r.strings ++ choice ∷ [];
      }

  abbrev pub nth : List ScoredResult → ℕ → Option ScoredResult
  nth [] n = none
  nth (r ∷ rs) zero = some r
  nth (r ∷ rs) (suc n) = nth rs n

  abbrev pub string_of : Option ScoredResult → Option Text
  string_of none = none
  string_of (some r) = some r.str.str

  -- The string at `n`, or NULL.
  unfoldable pub choices_get : Choices → ℕ → Option Text
  choices_get c n = string_of (nth c.results n)

  -- The score at `n`, below `available`.
  unfoldable pub choices_getscore : Choices → ℕ → Option Score
  choices_getscore c n = elim (nth c.results n) [ none ↦ none | some r ↦ some r.score ]

  unfoldable pub choices_prev : Choices → Choices
  choices_prev c =
      if available c == 0
      then c
      else record c { selection = (c.selection + available c - 1) % available c }

  unfoldable pub choices_next : Choices → Choices
  choices_next c =
      if available c == 0 then c else record c { selection = (c.selection + 1) % available c }

  pub nth-All :
      (P : ScoredResult → Type 0) (rs : List ScoredResult) (n : ℕ) {r : ScoredResult}
      → All P rs
      → nth rs n ≡ some r
      → P r
  nth-All P [] n h e = cc
  nth-All P (r ∷ rs) zero {r = r'} h e = let same : r ≡ r' = cc in subst P same h.0
  nth-All P (r ∷ rs) (suc n) h e = nth-All P rs n h.1 e
