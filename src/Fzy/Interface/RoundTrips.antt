-- ===== src/Fzy/Interface/RoundTrips.antt =====
-- Keys that undo one another.
use clang_witness_inject.Prelude.{
  ℕ, suc, ◌+◌, ◌≤◌, ◌<◌, ◌≡◌, ap, ◌∙◌, true, ◌∷◌, ◌++◌, Text, length, ltb, arith, lt→ltb,
}
use clang_witness_inject.Fzy.Chars.{is_boundary, char_at, char_at-take_append, take, drop, cut}
use clang_witness_inject.Fzy.Line.{back, continuation}
use clang_witness_inject.Fzy.Line.Steps.{
  back-lt, forward_back, continuation_boundary, cut_insert, back_first, back-continuation,
}
use clang_witness_inject.Fzy.Scores.{Scores}
use clang_witness_inject.Fzy.Screen.{Options, Environment, State}
use clang_witness_inject.Fzy.Interface.{action_left, action_right, action_del_char, append_search}

module _ (sc : Scores) (options : Options) (env : Environment sc) where
  -- At the first byte of a character behind the first one, or at the end of the line, the key for
  -- right undoes the key for left.
  pub right-left :
      (s : State sc)
      → 0 < s.cursor
      → s.cursor ≤ length s.search
      → is_boundary (char_at s.search s.cursor) ≡ true
      → action_right sc options env (action_left sc options env s) ≡ s
  unfolding action_left action_right
  right-left s h k e =
      let b = back s.search s.cursor in
      let there : ltb b (length s.search) ≡ true =
        lt→ltb _ _ (omega (arith, back-lt s.search s.cursor h)) in
      let landed : b + 1 + continuation (drop (b + 1) s.search) ≡ s.cursor =
        let next : b + 1 ≡ suc b = omega arith in
        rw next (
          omega (
            arith,
            forward_back s.search s.cursor h k,
            continuation_boundary s.search s.cursor e,
          )) in
      rw (lt→ltb 0 s.cursor h, there) (ap (λ (c : ℕ). record s { cursor = c }) landed)

  -- At the first byte of a character in the line, the key for left undoes the key for right.
  pub left-right :
      (s : State sc)
      → s.cursor < length s.search
      → is_boundary (char_at s.search s.cursor) ≡ true
      → action_left sc options env (action_right sc options env s) ≡ s
  unfolding action_left action_right
  left-right s h e =
      let behind = continuation (drop (suc s.cursor) s.search) in
      let landed = back-continuation s.search s.cursor behind e (omega arith) in
      let next : s.cursor + 1 ≡ suc s.cursor = omega arith in
      rw (lt→ltb _ _ h, next, lt→ltb 0 (suc s.cursor + behind) (omega arith))
        (ap (λ (c : ℕ). record s { cursor = c }) landed)

  append_search_lem :
      (s : State sc) (ch : ℕ)
      → length s.search < 4096
      → append_search sc options env ch s ≡ record s {
        search = take s.cursor s.search ++ ch ∷ drop s.cursor s.search;
        cursor = suc s.cursor;
      }
  unfolding append_search
  append_search_lem s ch h = rw (lt→ltb _ _ h) (
      ap
        (λ (c : ℕ). record s {
          search = take s.cursor s.search ++ ch ∷ drop s.cursor s.search;
          cursor = c;
        })
        (omega arith))

  action_del_char_lem :
      (s : State sc) (c : ℕ)
      → is_boundary (char_at s.search c) ≡ true
      → action_del_char sc options env (record s { cursor = suc c })
        ≡ record s { search = cut s.search c (suc c); cursor = c }
  unfolding action_del_char
  action_del_char_lem s c e = rw (back_first s.search c e) (ground arith)

  -- Where the line is not full, the key that deletes a character undoes the typing of a byte that is
  -- a character of its own or the first of one.
  pub del_char-append_search :
      (s : State sc) (ch : ℕ)
      → s.cursor ≤ length s.search
      → length s.search < 4096
      → is_boundary ch ≡ true
      → action_del_char sc options env (append_search sc options env ch s) ≡ s
  del_char-append_search s ch h k e =
      let typed = take s.cursor s.search ++ ch ∷ drop s.cursor s.search in
      let first : is_boundary (char_at typed s.cursor) ≡ true =
        rw (char_at-take_append s.search (ch ∷ drop s.cursor s.search) s.cursor h) e in
      ap (action_del_char sc options env) (append_search_lem s ch k)
      ∙ action_del_char_lem (record s { search = typed }) s.cursor first
      ∙ ap (λ (l : Text). record s { search = l }) (cut_insert s.search ch s.cursor h)
