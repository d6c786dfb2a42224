-- ===== src/Locate.antt =====
-- src/util.cpp: the node of the syntax tree that a witness location stands for.
use clang_witness_inject.Prelude.{
  ℕ, zero, suc, ◌+◌, ◌-◌, ◌%◌, ◌^◌, Bool, true, false, ◌&&◌, ◌||◌, not, Option, none, some, List,
  [], ◌∷◌, ltb, ◌==◌, if◌then◌else◌,
}
use clang_witness_inject.Clang.{Clang, is_expr}
pub mod Smallest
pub mod Climb

module _ (c : Clang) where
  open c use {
    Loc, Node, same_loc, invalid, is_invalid, is_macro_id, expansion_loc, is_before, offset,
    token_start, token_end, next_token, kind, range_begin, range_end, parents, visited, depth,
  }

  unfoldable pub to_file_loc : Loc → Loc
  to_file_loc l = if is_invalid l then l else if is_macro_id l then expansion_loc l else l

  next_begin : Option Loc → Loc
  next_begin none = invalid
  next_begin (some l) = to_file_loc l

  unfoldable pub token_begin : Loc → Loc
  unfolding next_begin
  token_begin l =
      let at = to_file_loc l in
      let b = token_start at in
      if is_invalid at
      then at
      else if not (is_invalid b) && same_loc b at
      then b
      else next_begin (next_token at)

  unfoldable pub file_token_end : Loc → Loc
  file_token_end l = let at = to_file_loc l in if is_invalid at then at else token_end at

  unfoldable pub node_begin : Node → Loc
  node_begin n = to_file_loc (range_begin n)

  -- `std::numeric_limits<unsigned int>::max()` at an invalid location.
  unfoldable pub file_offset : Loc → ℕ
  file_offset l = if is_invalid l then 2 ^ 32 - 1 else offset l

  -- The fields `bestNode` and `bestLength` of `SmallestContainerAtPos`.
  pub record Best : Type 0 where
    pub node : Option Node
    pub length : ℕ

  -- The range of a node as `consider` reads it, in file locations.
  abbrev pub begin_of : Node → Loc
  begin_of n = to_file_loc (range_begin n)

  abbrev pub end_of : Node → Loc
  end_of n = file_token_end (range_end n)

  -- `consider` passes over a node of no known range, and one whose range misses `loc`.
  unfoldable pub misses : Loc → Node → Bool
  misses loc n =
      is_invalid (range_begin n)
      || is_invalid (range_end n)
      || is_invalid (begin_of n)
      || is_invalid (end_of n)
      || is_before loc (begin_of n)
      || is_before (end_of n) loc

  -- The subtraction of two `unsigned int` wraps.
  unfoldable pub length_of : Node → ℕ
  length_of n = (file_offset (end_of n) + 2 ^ 32 - file_offset (begin_of n)) % 2 ^ 32

  unfoldable pub consider : Loc → Best → Node → Best
  consider loc best n =
      if misses loc n
      then best
      else if best.length == 0 || ltb (length_of n) best.length
      then record { node = some n; length = length_of n }
      else best

  -- The traversal: `consider` at each node that is visited.
  unfoldable pub traverse_from : Loc → Best → List Node → Best
  traverse_from loc best [] = best
  traverse_from loc best (n ∷ ns) = traverse_from loc (consider loc best n) ns

  -- The visitor takes the file location of its argument.
  unfoldable pub smallest_container : Loc → Option Node
  smallest_container l =
      (traverse_from (to_file_loc l) (record { node = none; length = 0 }) visited).node

  -- The loop `while (!nodeParents.empty() && nodeBegin(sm, node) != beginLoc)`. It leaves `node` as
  -- it is until it breaks, so its second test has one value, and is made by the caller. `none` means
  -- that the fuel ran out.
  unfoldable pub find_parent : ℕ → Loc → Node → List Node → Option Node
  find_parent fuel at node [] = some node
  find_parent zero at node (p ∷ ps) = none
  find_parent (suc fuel) at node (p ∷ ps) =
      let up = find_parent fuel at node (parents p) in
      if same_loc (node_begin p) at then some p else up

  -- The test in the inner loop of the climb.
  unfoldable pub climbs_to : Loc → Node → Bool
  climbs_to at p = same_loc (node_begin p) at || is_expr (kind p)

  -- The inner loop: the first parent to climb to.
  unfoldable pub first_climb : Loc → List Node → Option Node
  first_climb at [] = none
  first_climb at (p ∷ ps) = let rest = first_climb at ps in if climbs_to at p then some p else rest

  -- The loop `for (bool climb = true; climb;)`.
  unfoldable pub climb : ℕ → Loc → Node → Option Node
  climb zero at n = none
  climb (suc fuel) at n = elim (first_climb at (parents n)) [
    | none ↦ some n
    | some p ↦ climb fuel at p
  ]

  -- What `largestASTNodeStartingAt` returns: a node or the empty one, or a loop that is still
  -- running when its fuel is used up.
  pub data Located : Type 0 where
    located : Option Node → Located
    running : Located

  climbed : Option Node → Located
  climbed none = running
  climbed (some n) = located (some n)

  climb_from : Loc → Option Node → Located
  unfolding climbed
  climb_from at none = running
  climb_from at (some n) = climbed (climb (suc (depth n)) at n)

  unfoldable pub locate_from : Loc → Option Node → Located
  unfolding climb_from
  locate_from at none = located none
  locate_from at (some n) =
      climb_from at (
        if same_loc (node_begin n) at then some n else find_parent (suc (depth n)) at n (parents n))

  unfoldable pub largest_ast_node_starting_at : Loc → Located
  unfolding locate_from
  largest_ast_node_starting_at l =
      let at = token_begin l in
      if is_invalid at then located none else locate_from at (smallest_container at)
