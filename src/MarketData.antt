-- ===== src/MarketData.antt =====
-- `iter_bars` of services/research/app/market_data.py: the merge of the artifacts of a data set. The rows
-- of an artifact are an argument, as are the paths that `glob` finds.
pub mod Rounds
pub mod Batches
pub mod Order
pub mod Coverage
pub mod Merged
mod Examples
use arkana.Base.{
  ℕ, zero, suc, ◌+◌, Bool, true, false, List, [], ◌∷◌, ◌++◌, Result, ok, raised, String, ltb, leb,
  ◌==◌, length, codes, codes_le, sort_texts, ℤ, pos, negsuc, if◌then◌else◌,
}

-- A stream that is not exhausted: its row on the heap, and the rows that `next` will give. The heap is
-- the list of these in the order of their indices; its least timestamp is `heap[0][0]`.
pub record Head (B : Type 0) : Type 0 where
  pub path : String
  pub row : B
  pub rest : List B

module _ {B : Type 0} (time : B → ℕ) where
  unfoldable pub least : ℕ → List (Head B) → ℕ
  least t [] = t
  least t (h ∷ heads) = least (if ltb (time h.row) t then time h.row else t) heads

  -- The entries that are popped, those at the least timestamp.
  unfoldable pub same_of : ℕ → List (Head B) → List (Head B)
  same_of t [] = []
  same_of t (h ∷ heads) =
      let later = same_of t heads in if time h.row == t then h ∷ later else later

  -- `max(same, key=...)` keeps the first of the greatest paths.
  unfoldable pub greatest_path : Head B → List (Head B) → Head B
  greatest_path best [] = best
  greatest_path best (h ∷ heads) =
      greatest_path (if codes_le (codes h.path) (codes best.path) then best else h) heads

  -- A popped stream pushes its next row; an exhausted one is gone.
  unfoldable pub pushed : String → List B → List (Head B)
  pushed path [] = []
  pushed path (b ∷ rest) = record { path = path; row = b; rest = rest } ∷ []

  unfoldable pub advance : ℕ → List (Head B) → List (Head B)
  unfolding pushed
  advance t [] = []
  advance t (h ∷ heads) =
      (if time h.row == t then pushed h.path h.rest else h ∷ []) ++ advance t heads

  -- The heap is not empty, so some entry is popped.
  unfoldable pub chosen_of : Head B → List (Head B) → B
  unfolding greatest_path
  chosen_of h [] = h.row
  chosen_of h (k ∷ same) = (greatest_path k same).row

  -- The loop while the heap is not empty; `output` is the batch that is being filled.
  unfoldable pub merge_loop : ℕ → ℕ → List B → List (Head B) → List (List B)
  merge_loop zero size output heads = []
  merge_loop (suc fuel) size [] [] = []
  merge_loop (suc fuel) size (b ∷ output) [] = (b ∷ output) ∷ []
  merge_loop (suc fuel) size output (h ∷ heads) =
      let t = least (time h.row) heads in
      let filled = output ++ chosen_of h (same_of t (h ∷ heads)) ∷ [] in
      let yielded = filled ∷ merge_loop fuel size [] (advance t (h ∷ heads)) in
      let held = merge_loop fuel size filled (advance t (h ∷ heads)) in
      if leb size (length filled) then yielded else held

-- A stream with no row pushes nothing.
unfoldable pub opened : {B : Type 0} → String → List B → List (Head B) → List (Head B)
opened path [] heads = heads
opened path (b ∷ rest) heads = record { path = path; row = b; rest = rest } ∷ heads

unfoldable pub open_streams : {B : Type 0} → (String → List B) → List String → List (Head B)
open_streams rows_of [] = []
open_streams rows_of (path ∷ paths) = opened path (rows_of path) (open_streams rows_of paths)

-- The rows that are still to come.
unfoldable pub total : {B : Type 0} → List (Head B) → ℕ
total [] = 0
total (h ∷ heads) = suc (length h.rest) + total heads

-- `found` is what `glob` finds for a fragmented asset, or the one path of another. Each round takes a row
-- at least, so one round more than there are rows is enough.
unfoldable pub iter_bars :
    {B : Type 0} → (B → ℕ) → (String → List B) → List String → ℤ → Result (List (List B))
iter_bars time rows_of found (negsuc k) = raised "chunk_size must be positive"
iter_bars time rows_of found (pos zero) = raised "chunk_size must be positive"
iter_bars time rows_of found (pos (suc k)) =
    let heads = open_streams rows_of (sort_texts found) in
    ok (merge_loop time (suc (total heads)) (suc k) [] heads)
