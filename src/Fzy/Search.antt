-- ===== src/Fzy/Search.antt =====
-- The search of choices.c in examples/fzy.c: threads take batches of lines, sort what they find and
-- merge it in a tree of joins.
pub mod Merge
pub mod Partner
pub mod Known
pub mod Batches
pub mod Tally
pub mod Cover
pub mod Results
pub mod Ranges
pub mod Held
pub mod Aligned
pub mod Progress
pub mod Ends
pub mod Short
use clang_witness_inject.Prelude.{
  ℕ, suc, ◌+◌, ◌-◌, ◌*◌, ◌%◌, ◌^◌, ◌<◌, ◌≤◌, ◌≡◌, ◌⊎◌, Bool, true, false, Option, none, some, List,
  [], ◌∷◌, ◌++◌, Text, length, ltb, ◌==◌, if◌then◌else◌,
}
use Prim.Native.Nat.{bit_or}
use clang_witness_inject.Fzy.Chars.{take, drop}
use clang_witness_inject.Fzy.Scores.{Scores}
use clang_witness_inject.Fzy.Choices.{Choice, ScoredResult, cmpchoice}
use clang_witness_inject.Fzy.Match.{Rows, has_match, match}
use clang_witness_inject.Threads.Pool.{update}

-- `start` and `end` for the number of lines and `job->processed`, which becomes `end`. The sum wraps.
unfoldable pub worker_get_next_batch : (size processed : ℕ) → ℕ × ℕ
worker_get_next_batch size processed =
    let next = (processed + 512) % 2 ^ 64 in (processed, if ltb size next then size else next)

-- Where a worker stands: before it gets a batch, with a batch, before qsort, at the test of its last
-- loop, and at its end with the last `step`.
pub data Pc : Type 0 where
  getting : Pc
  searching : (start end : ℕ) → Pc
  sorting : Pc
  merging finished : (step : ℕ) → Pc

abbrev pub after_batch : ℕ × ℕ → Pc
after_batch (start, end) = if start == end then sorting else searching start end

-- `2 << step` and `1 << step` do not overflow: `step` stays below the number of digits of
-- `worker_count`.
abbrev pub has_next : ℕ → ℕ → Bool
has_next w step = w % (2 * 2 ^ step) == 0

abbrev pub next_worker : ℕ → ℕ → ℕ
next_worker w step = bit_or w (2 ^ step)

module _ (sc : Scores) where
  -- The list that is made, on the two lists that are left.
  unfoldable pub merge2 : List (ScoredResult sc) → List (ScoredResult sc) → List (ScoredResult sc)
  merge2 (a ∷ list1) (b ∷ list2) = elim (cmpchoice sc a b) [
    | true ↦ a ∷ merge2 list1 (b ∷ list2)
    | false ↦ b ∷ merge2 (a ∷ list1) list2
  ]
  merge2 list1 [] = list1
  merge2 [] list2 = list2

  -- What the loop over a batch adds to the result. `rows` is what the stack holds when `match` begins.
  unfoldable pub search_batch : Rows sc → Text → List Choice → List (ScoredResult sc)
  search_batch rows search [] = []
  search_batch rows search (c ∷ cs) =
      let rest = search_batch rows search cs in
      if has_match search c.str
      then record { score = match sc rows rows search c.str; str = c } ∷ rest
      else rest

  -- Where `choices_search` stands: it creates the workers below `i`, down to 0, then joins worker 0.
  pub data MainPc : Type 0 where
    creating : (i : ℕ) → MainPc
    returned : (results : List (ScoredResult sc)) → MainPc

  -- The job: `processed`, and of each worker where it stands and `result`, `none` for a list that is
  -- not allocated or is freed.
  pub record System : Type 0 where
    pub processed : ℕ
    pub pcs : ℕ → Option Pc
    pub results : ℕ → Option (List (ScoredResult sc))
    pub main : MainPc

-- What a search works on. `qsort` is the C library's with `cmpchoice`.
pub record Job (sc : Scores) : Type 0 where
  pub rows : Rows sc
  pub qsort : List (ScoredResult sc) → List (ScoredResult sc)
  pub search : Text
  pub strings : List Choice
  pub worker_count : ℕ

module _ (sc : Scores) (job : Job sc) where
  open job use {qsort, strings, worker_count}

  abbrev pub batch : (start end : ℕ) → List (ScoredResult sc)
  batch start end = search_batch sc job.rows job.search (take (end - start) (drop start strings))

  -- A step of `choices_search` or of a worker. The lock makes `worker_get_next_batch` one step, and
  -- the batch and the lists are read and written by no other worker meanwhile. A thread that is not
  -- created, or memory that runs out, ends the program.
  pub data Step (s : System sc) : System sc → Type 0 where
    create :
        (i : ℕ)
        → s.main ≡ creating (suc i)
        → Step s (record s {
          pcs = update s.pcs i (some getting);
          results = update s.results i (some []);
          main = creating i;
        })
    get :
        (w : ℕ)
        → s.pcs w ≡ some getting
        → Step s (record s {
          processed = (worker_get_next_batch (length strings) s.processed).1;
          pcs =
              update s.pcs w
                (some (after_batch (worker_get_next_batch (length strings) s.processed)));
        })
    find :
        (w start end : ℕ) {rs : List (ScoredResult sc)}
        → s.pcs w ≡ some (searching start end)
        → s.results w ≡ some rs
        → Step s (record s {
          pcs = update s.pcs w (some getting);
          results = update s.results w (some (rs ++ batch start end));
        })
    sort :
        (w : ℕ) {rs : List (ScoredResult sc)}
        → s.pcs w ≡ some sorting
        → s.results w ≡ some rs
        → Step s (record s {
          pcs = update s.pcs w (some (merging 0));
          results = update s.results w (some (qsort rs));
        })
    merge :
        (w step last : ℕ) {list1 list2 : List (ScoredResult sc)}
        → s.pcs w ≡ some (merging step)
        → has_next w step ≡ true
        → next_worker w step < worker_count
        → s.pcs (next_worker w step) ≡ some (finished last)
        → s.results w ≡ some list1
        → s.results (next_worker w step) ≡ some list2
        → Step s (record s {
          pcs = update s.pcs w (some (merging (suc step)));
          results =
              update (update s.results (next_worker w step) none) w (some (merge2 sc list1 list2));
        })
    finish :
        (w step : ℕ)
        → s.pcs w ≡ some (merging step)
        → (has_next w step ≡ false) ⊎ (worker_count ≤ next_worker w step)
        → Step s (record s { pcs = update s.pcs w (some (finished step)) })
    join :
        (last : ℕ) {rs : List (ScoredResult sc)}
        → s.main ≡ creating 0
        → s.pcs 0 ≡ some (finished last)
        → s.results 0 ≡ some rs
        → Step s (record s { main = returned rs })

  abbrev pub init : System sc
  init = record {
    processed = 0;
    pcs = λ w. none;
    results = λ w. none;
    main = creating worker_count;
  }

  pub data Reach : System sc → Type 0 where
    start : Reach init
    later : {s t : System sc} → Reach s → Step s t → Reach t
