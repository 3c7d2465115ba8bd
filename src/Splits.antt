-- ===== src/Splits.antt =====
-- `split_bounds` and `slice_chunks` of services/research/app/oos_validation.py: the chronological
-- 60/20/20 ranges of a history, and a range cut out of it without holding it.
pub mod Cover
mod Examples
use arkana.Base.{
  ℕ, ◌+◌, ◌-◌, ◌*◌, ◌/◌, List, [], ◌∷◌, Result, ok, raised, ltb, leb, length, slice, ℤ, pos, negsuc,
  if◌then◌else◌,
}

-- The half-open ranges under "train", "holdout" and "final_oos".
pub record Bounds : Type 0 where
  pub train : ℕ × ℕ
  pub holdout : ℕ × ℕ
  pub final_oos : ℕ × ℕ

-- `int(row_count * 0.60)` is the quotient below for every row count under 2 ^ 50: the float nearest to
-- 0.60 is off by less than a rounding step, and a product that is no integer is a fifth away from one.
unfoldable pub split_bounds : ℤ → Result Bounds
split_bounds (negsuc _) = raised "row_count cannot be negative"
split_bounds (pos row_count) =
    let train_end = row_count * 60 / 100 in
    let holdout_end = row_count * 80 / 100 in
    ok (record {
      train = (0, train_end);
      holdout = (train_end, holdout_end);
      final_oos = (holdout_end, row_count);
    })

module _ {B : Type 0} (start end : ℕ) where
  -- What a chunk yields, and then the rest.
  pub yield_of : ℕ → List B → List (List B) → List (List B)
  yield_of position chunk later =
      let left = if ltb start position then position else start in
      let chunk_end = position + length chunk in
      let right = if ltb chunk_end end then chunk_end else end in
      if ltb left right then slice (left - position) (right - position) chunk ∷ later else later

  -- The loop over the chunks, at `position`, with its early `break`.
  pub slice_from : ℕ → List (List B) → List (List B)
  unfolding yield_of
  slice_from position [] = []
  slice_from position (chunk ∷ rest) =
      let later = slice_from (position + length chunk) rest in
      yield_of position chunk (if leb end (position + length chunk) then [] else later)

  pub slice_chunks : List (List B) → List (List B)
  unfolding slice_from
  slice_chunks chunks = slice_from 0 chunks
