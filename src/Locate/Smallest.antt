-- ===== src/Locate/Smallest.antt =====
-- What `SmallestContainerAtPos` of src/util.cpp finds: among the nodes that are visited, a shortest
-- one whose range holds the location.
use clang_witness_inject.Prelude.{
  ℕ, ◌≤◌, ◌<◌, ◌≡◌, refl, ◌≢◌, inl, inr, false, Option, none, some, List, [], ◌∷◌, In, here, there,
  arith, Bool-cases, Option-cases, subst, ◌||◌, ltb, ◌==◌,
}
use clang_witness_inject.Clang.{Clang}
use clang_witness_inject.Locate.{
  Best, misses, length_of, consider, traverse_from, smallest_container, to_file_loc, begin_of,
  end_of,
}

-- The range of the node is known, also in file locations, and the location is neither before its
-- begin nor after the end of its last token.
pub record Covers (c : Clang) (loc : c.Loc) (n : c.Node) : Type 0 where
  pub begin_known : c.is_invalid (c.range_begin n) ≡ false
  pub end_known : c.is_invalid (c.range_end n) ≡ false
  pub begin_in_file : c.is_invalid (begin_of c n) ≡ false
  pub end_in_file : c.is_invalid (end_of c n) ≡ false
  pub not_before : c.is_before loc (begin_of c n) ≡ false
  pub not_after : c.is_before (end_of c n) loc ≡ false

abbrev Hits : (c : Clang) → c.Loc → c.Node → Type 0
Hits c loc n = misses c loc n ≡ false

Covers-Hits : (c : Clang) (loc : c.Loc) (n : c.Node) → Covers c loc n → Hits c loc n
unfolding misses
Covers-Hits c loc n h = ground arith

Hits-Covers : (c : Clang) (loc : c.Loc) (n : c.Node) → Hits c loc n → Covers c loc n
unfolding misses
Hits-Covers c loc n h = ground arith

module _ (c : Clang) (loc : c.Loc) (all : List c.Node) where
  -- What the two fields say together.
  abbrev Good : Option c.Node → ℕ → Type 0
  Good none k = k ≡ 0
  Good (some n) k = In n all × Hits c loc n × (k ≡ length_of c n)

  abbrev IsGood : Best c → Type 0
  IsGood b = Good b.node b.length

  -- The best so far is at most `k` long.
  abbrev Beats : Best c → ℕ → Type 0
  Beats b k = (b.node ≢ none) × (b.length ≤ k)

  module _ (solid : (n : c.Node) → Hits c loc n → 0 < length_of c n) where
    consider-IsGood : (b : Best c) (n : c.Node) → In n all → IsGood b → IsGood (consider c loc b n)
    unfolding consider
    consider-IsGood b n i g = elim (Bool-cases (misses c loc n)) [
      | inl e ↦ rw e g
      | inr e ↦ elim (Bool-cases (b.length == 0 || ltb (length_of c n) b.length)) [
        | inl s ↦ rw (e, s) (i, e, refl)
        | inr s ↦ rw (e, s) g
      ]
    ]

    -- No length of a best node is 0, so a longer one never replaces it.
    Good-pos : (o : Option c.Node) (k : ℕ) → Good o k → o ≢ none → 0 < k
    Good-pos none k g h = absurd (h refl)
    Good-pos (some n) k g h = omega (arith, solid n g.1, g.2)

    consider-Beats_self :
        (b : Best c) (n : c.Node)
        → IsGood b
        → Hits c loc n
        → Beats (consider c loc b n) (length_of c n)
    unfolding consider
    consider-Beats_self b n g h = elim (Option-cases b.node) [
      | inl e ↦ let z : Good none b.length = subst (λ o. Good o b.length) e g in ground arith
      | inr (m, e) ↦ ground arith
    ]

    consider-Beats :
        (b : Best c) (n : c.Node) (k : ℕ) → IsGood b → Beats b k → Beats (consider c loc b n) k
    unfolding consider
    consider-Beats b n k g h = let pos = Good-pos b.node b.length g h.0 in ground arith

    traverse-Beats :
        (ns : List c.Node) (b : Best c) (k : ℕ)
        → IsGood b
        → Beats b k
        → ((n : c.Node) → In n ns → In n all)
        → Beats (traverse_from c loc b ns) k
    unfolding traverse_from
    traverse-Beats [] b k g h sub = h
    traverse-Beats (n ∷ ns) b k g h sub =
        traverse-Beats ns (consider c loc b n) k (consider-IsGood b n (sub n here) g)
          (consider-Beats b n k g h) (λ m i. sub m (there i))

    traverse-Beats_all :
        (ns : List c.Node) (b : Best c) (m : c.Node)
        → IsGood b
        → ((n : c.Node) → In n ns → In n all)
        → In m ns
        → Hits c loc m
        → Beats (traverse_from c loc b ns) (length_of c m)
    unfolding traverse_from
    traverse-Beats_all [] b m g sub i h = elim i [ ]
    traverse-Beats_all (n ∷ ns) b m g sub here h =
        traverse-Beats ns (consider c loc b n) (length_of c n) (consider-IsGood b n (sub n here) g)
          (consider-Beats_self b n g h) (λ k i. sub k (there i))
    traverse-Beats_all (n ∷ ns) b m g sub (there i) h =
        traverse-Beats_all ns (consider c loc b n) m (consider-IsGood b n (sub n here) g)
          (λ k j. sub k (there j)) i h

    traverse-IsGood :
        (ns : List c.Node) (b : Best c)
        → IsGood b
        → ((n : c.Node) → In n ns → In n all)
        → IsGood (traverse_from c loc b ns)
    unfolding traverse_from
    traverse-IsGood [] b g sub = g
    traverse-IsGood (n ∷ ns) b g sub =
        traverse-IsGood ns (consider c loc b n) (consider-IsGood b n (sub n here) g)
          (λ m i. sub m (there i))

-- The answer of the visitor: the node is visited, holds the location, and no visited node that
-- holds it is shorter; without an answer no visited node holds it.
abbrev pub Smallest : (c : Clang) → c.Loc → Option c.Node → Type 0
Smallest c loc none = (m : c.Node) → In m c.visited → ¬ Covers c loc m
Smallest c loc (some n) =
    In n c.visited
    × Covers c loc n
    × ((m : c.Node) → In m c.visited → Covers c loc m → length_of c n ≤ length_of c m)

answer :
    (c : Clang) (loc : c.Loc) (o : Option c.Node) (k : ℕ)
    → Good c loc c.visited o k
    → ((m : c.Node) → In m c.visited → Hits c loc m → (o ≢ none) × (k ≤ length_of c m))
    → Smallest c loc o
answer c loc none k g beats = λ m i h. (beats m i (Covers-Hits c loc m h)).0 refl
answer c loc (some n) k g beats =
    (g.0, Hits-Covers c loc n g.1, λ m i h. omega (arith, beats m i (Covers-Hits c loc m h), g.2))

-- The visitor answers with a shortest of the visited nodes whose range is known and holds the
-- location, and with no node exactly if there is none, provided that a node which holds the
-- location has a length above 0.
pub smallest_container-Smallest :
    (c : Clang) (l : c.Loc)
    → ((n : c.Node) → Covers c (to_file_loc c l) n → 0 < length_of c n)
    → Smallest c (to_file_loc c l) (smallest_container c l)
unfolding smallest_container
smallest_container-Smallest c l solid =
    let loc = to_file_loc c l in
    let pos = λ (n : c.Node) (h : Hits c loc n). solid n (Hits-Covers c loc n h) in
    let b = traverse_from c loc (record { node = none; length = 0 }) c.visited in
    answer c loc b.node b.length
      (traverse-IsGood c loc c.visited pos c.visited (record { node = none; length = 0 }) refl
        (λ n i. i))
      (λ m i h.
        traverse-Beats_all c loc c.visited pos c.visited (record { node = none; length = 0 }) m refl
          (λ n j. j) i h)
