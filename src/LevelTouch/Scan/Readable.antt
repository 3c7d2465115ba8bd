-- ===== src/LevelTouch/Scan/Readable.antt =====
-- The bars that a request may read, out of a history in chunks.
use arkana.Base.{
  ℕ, ◌+◌, ◌-◌, ◌*◌, ◌/◌, ◌≡◌, sym, ap, ◌∙◌, List, [], ◌∷◌, ◌++◌, ok, arith, ltb, leb, length, slice,
  Bool-cases, inl, inr, if◌then◌else◌,
}
use arkana.Kernel.Chunks.{concat}
use arkana.Splits.{split_bounds}
use arkana.Splits.Cover.{slice-append, slice-empty, slice-beyond, slice-clamped, slice-whole}
use arkana.LevelTouch.Scan.{research, all, read_from, readable_bars}

module _ {B : Type 0} where
  -- What a chunk adds is its own part of the range, also where nothing is added.
  piece-slice :
      (start end position : ℕ) (chunk : List B)
      → let chunk_end = position + length chunk in
        let left = if ltb start position then position else start in
        let right = if ltb chunk_end end then chunk_end else end in
        (if ltb left right then slice (left - position) (right - position) chunk else [])
        ≡ slice (start - position) (end - position) chunk
  piece-slice start end position chunk =
      let chunk_end = position + length chunk in
      let left = if ltb start position then position else start in
      let right = if ltb chunk_end end then chunk_end else end in
      elim (Bool-cases (ltb left right)) [
        | inl some_bars ↦ rw some_bars (slice-clamped start end position chunk)
        | inr no_bars ↦ rw no_bars (
            sym (slice-empty (left - position) (right - position) chunk (ground arith))
            ∙ slice-clamped start end position chunk)
      ]

  read_from-slice :
      (start end position : ℕ) (chunks : List (List B))
      → read_from start end position chunks
        ≡ slice (start - position) (end - position) (concat chunks)
  unfolding read_from
  read_from-slice start end position [] =
      sym (slice-beyond (start - position) (end - position) [] (omega arith))
  read_from-slice start end position (chunk ∷ rest) =
      let after = position + length chunk in
      let from : start - after ≡ start - position - length chunk = omega arith in
      let to : end - after ≡ end - position - length chunk = omega arith in
      let piece = slice (start - position) (end - position) chunk in
      let whole =
        ap (λ i. piece ++ slice i (end - after) (concat rest)) from
        ∙ ap (λ j. piece ++ slice (start - position - length chunk) j (concat rest)) to
        ∙ sym (slice-append (start - position) (end - position) chunk (concat rest)) in
      elim (Bool-cases (leb after start)) [
        | inl before ↦ rw before (
            read_from-slice start end after rest
            ∙ ap (λ t. t ++ slice (start - after) (end - after) (concat rest))
                (sym (slice-beyond (start - position) (end - position) chunk (ground arith)))
            ∙ whole)
        | inr inside ↦ elim (Bool-cases (leb end after)) [
          | inl last ↦
              rw (inside, last)
                (ap (λ t. t ++ []) (piece-slice start end position chunk)
                  ∙ ap (λ t. piece ++ t)
                      (sym (slice-empty (start - after) (end - after) (concat rest) (ground arith)))
                  ∙ whole)
          | inr more ↦
              rw (inside, more)
                (ap (λ t. t ++ read_from start end after rest)
                    (piece-slice start end position chunk)
                  ∙ ap (λ t. piece ++ t) (read_from-slice start end after rest)
                  ∙ whole)
        ]
      ]

-- However a history is cut into chunks, a request for research reads exactly its leading bars, those
-- before `rows * 80 / 100`, and one for everything reads exactly the history.
pub readable_bars-slice :
    {B : Type 0} (chunks : List (List B))
    → let rows = length (concat chunks) in
      (readable_bars rows chunks research ≡ ok (slice 0 (rows * 80 / 100) (concat chunks)))
      × (readable_bars rows chunks all ≡ ok (concat chunks))
unfolding readable_bars split_bounds
readable_bars-slice chunks =
    let bars = concat chunks in
    let rows = length bars in
    let train_end = rows * 60 / 100 in
    let holdout_end = rows * 80 / 100 in
    let start = if ltb train_end 0 then train_end else 0 in
    let end = if ltb train_end holdout_end then holdout_end else train_end in
    let from : start - 0 ≡ 0 = ground arith in
    let to : end - 0 ≡ holdout_end = ground arith in
    let to_all : rows - 0 ≡ rows = omega arith in
    (
      ap ok (
          read_from-slice start end 0 chunks
          ∙ ap (λ i. slice i (end - 0) bars) from
          ∙ ap (λ j. slice 0 j bars) to),
      ap ok (
          read_from-slice start rows 0 chunks
          ∙ ap (λ i. slice i (rows - 0) bars) from
          ∙ ap (λ j. slice 0 j bars) to_all
          ∙ slice-whole bars),
    )
