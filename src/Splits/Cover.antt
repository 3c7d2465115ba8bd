-- ===== src/Splits/Cover.antt =====
-- The ranges of a split cover the history, and a kernel run on one of them is a run on its bars.
use arkana.Base.{
  ℕ, zero, suc, ◌+◌, ◌-◌, ◌*◌, ◌/◌, ◌≤◌, ◌≡◌, refl, sym, ap, ◌∙◌, List, [], ◌∷◌, ◌++◌, ok, arith,
  ltb, leb, length, length-drop, take, drop, slice, pos, Number, Bool-cases, inl, inr,
  if◌then◌else◌,
}
use arkana.Splits.{Bounds, split_bounds, slice_from, slice_chunks, yield_of}
use arkana.Market.{Bar}
use arkana.Kernel.{Callbacks, Config, simulate_kernel}
use native.Mathlib.Numerals.{unary_clauses}
use arkana.Kernel.Chunks.{concat, simulate_kernel-rechunk}

module _ {B : Type 0} where
  take_nil : (n : ℕ) → take {A = B} n [] ≡ []
  take_nil zero = refl
  take_nil (suc n) = refl

  append_nil : (xs : List B) → xs ++ [] ≡ xs
  append_nil [] = refl
  append_nil (x ∷ xs) = ap (λ t. x ∷ t) (append_nil xs)

  drop_nil : (n : ℕ) → drop {A = B} n [] ≡ []
  drop_nil zero = refl
  drop_nil (suc n) = refl

  take-all : (n : ℕ) (xs : List B) → length xs ≤ n → take n xs ≡ xs
  take-all zero [] h = refl
  take-all (suc n) [] h = refl
  take-all zero (x ∷ xs) h = absurd (omega (arith, h))
  take-all (suc n) (x ∷ xs) h = ap (λ t. x ∷ t) (take-all n xs (omega arith))

  drop-all : (n : ℕ) (xs : List B) → length xs ≤ n → drop n xs ≡ []
  drop-all n [] h = drop_nil n
  drop-all zero (x ∷ xs) h = absurd (omega (arith, h))
  drop-all (suc n) (x ∷ xs) h = drop-all n xs (omega arith)

  take-append : (n : ℕ) (xs ys : List B) → take n (xs ++ ys) ≡ take n xs ++ take (n - length xs) ys
  take-append n [] ys = simp (unary_clauses, take_nil n)
  take-append zero (x ∷ xs) ys =
      let e : 0 - length (x ∷ xs) ≡ 0 = omega arith in ap (λ k. take k ys) (sym e)
  take-append (suc n) (x ∷ xs) ys = simp unary_clauses (ap (λ t. x ∷ t) (take-append n xs ys))

  drop-append : (n : ℕ) (xs ys : List B) → drop n (xs ++ ys) ≡ drop n xs ++ drop (n - length xs) ys
  drop-append n [] ys = simp (unary_clauses, drop_nil n)
  drop-append zero (x ∷ xs) ys =
      let e : 0 - length (x ∷ xs) ≡ 0 = omega arith in ap (λ k. x ∷ xs ++ drop k ys) (sym e)
  drop-append (suc n) (x ∷ xs) ys = simp unary_clauses (drop-append n xs ys)

  take-add : (m k : ℕ) (xs : List B) → take (m + k) xs ≡ take m xs ++ take k (drop m xs)
  take-add zero k xs = let e : 0 + k ≡ k = omega arith in ap (λ i. take i xs) e
  take-add (suc m) k [] = take_nil (suc m + k) ∙ sym (take_nil k)
  take-add (suc m) k (x ∷ xs) =
      let e : suc m + k ≡ suc (m + k) = omega arith in
      ap (λ i. take i (x ∷ xs)) e ∙ ap (λ t. x ∷ t) (take-add m k xs)

  drop-add : (m k : ℕ) (xs : List B) → drop (m + k) xs ≡ drop k (drop m xs)
  drop-add zero k xs = let e : 0 + k ≡ k = omega arith in ap (λ i. drop i xs) e
  drop-add (suc m) k [] = drop_nil (suc m + k) ∙ sym (drop_nil k)
  drop-add (suc m) k (x ∷ xs) =
      let e : suc m + k ≡ suc (m + k) = omega arith in ap (λ i. drop i (x ∷ xs)) e ∙ drop-add m k xs

  pub slice-append :
      (a b : ℕ) (xs ys : List B)
      → slice a b (xs ++ ys) ≡ slice a b xs ++ slice (a - length xs) (b - length xs) ys
  slice-append a b xs ys =
      let left = b - a - length (drop a xs) in
      let same : left ≡ (b - length xs) - (a - length xs) = omega (arith, length-drop a xs) in
      ap (take (b - a)) (drop-append a xs ys)
      ∙ take-append (b - a) (drop a xs) (drop (a - length xs) ys)
      ∙ ap (λ k. slice a b xs ++ take k (drop (a - length xs) ys)) same

  -- Cutting the bound to the list changes nothing.
  slice-min : (a b : ℕ) (xs : List B) → length xs ≤ b → slice a (length xs) xs ≡ slice a b xs
  slice-min a b xs h =
      take-all (length xs - a) (drop a xs) (omega (arith, length-drop a xs))
      ∙ sym (take-all (b - a) (drop a xs) (omega (arith, length-drop a xs)))

  pub slice-empty : (a b : ℕ) (xs : List B) → b ≤ a → slice a b xs ≡ []
  slice-empty a b xs h =
      let none_left : b - a ≡ 0 = omega arith in ap (λ k. take k (drop a xs)) none_left

  pub slice-beyond : (a b : ℕ) (xs : List B) → length xs ≤ a → slice a b xs ≡ []
  slice-beyond a b xs h = ap (take (b - a)) (drop-all a xs h) ∙ take_nil (b - a)

  pub slice-whole : (xs : List B) → slice 0 (length xs) xs ≡ xs
  slice-whole xs = take-all (length xs - 0) xs (omega arith)

  slice-split :
      (a b c : ℕ) (xs : List B) → a ≤ b → b ≤ c → slice a b xs ++ slice b c xs ≡ slice a c xs
  slice-split a b c xs h k =
      let from_a : a + (b - a) ≡ b = omega arith in
      let width : (b - a) + (c - b) ≡ c - a = omega arith in
      ap (λ t. slice a b xs ++ take (c - b) t)
        (ap (λ i. drop i xs) (sym from_a) ∙ drop-add a (b - a) xs)
      ∙ sym (take-add (b - a) (c - b) (drop a xs))
      ∙ ap (λ i. take i (drop a xs)) width

  -- The part of a chunk between the two ends, which are cut to it where they lie outside.
  pub slice-clamped :
      (start end position : ℕ) (chunk : List B)
      → let chunk_end = position + length chunk in
        let left = if ltb start position then position else start in
        let right = if ltb chunk_end end then chunk_end else end in
        slice (left - position) (right - position) chunk
        ≡ slice (start - position) (end - position) chunk
  slice-clamped start end position chunk =
      let chunk_end = position + length chunk in
      let left = if ltb start position then position else start in
      let right = if ltb chunk_end end then chunk_end else end in
      let from : left - position ≡ start - position = ground arith in
      ap (λ i. slice i (right - position) chunk) from ∙ elim (Bool-cases (ltb chunk_end end)) [
        | inl longer ↦
            let width : right - position ≡ length chunk = ground arith in
            ap (λ j. slice (start - position) j chunk) width
            ∙ slice-min (start - position) (end - position) chunk (ground arith)
        | inr within ↦
            let width : right - position ≡ end - position = ground arith in
            ap (λ j. slice (start - position) j chunk) width
      ]

  -- One chunk of the loop: what it yields is its own part of the range.
  yield_of-slice :
      (start end position : ℕ) (chunk : List B) (later : List (List B))
      → concat (yield_of start end position chunk later)
        ≡ slice (start - position) (end - position) chunk ++ concat later
  unfolding yield_of
  yield_of-slice start end position chunk later =
      let chunk_end = position + length chunk in
      let left = if ltb start position then position else start in
      let right = if ltb chunk_end end then chunk_end else end in
      let same = ap (λ t. t ++ concat later) (slice-clamped start end position chunk) in
      elim (Bool-cases (ltb left right)) [
        | inl some_bars ↦ rw some_bars same
        | inr no_bars ↦ rw no_bars (
            ap (λ t. t ++ concat later)
              (sym (slice-empty (left - position) (right - position) chunk (ground arith)))
            ∙ same)
      ]

  slice_from-slice :
      (start end position : ℕ) (chunks : List (List B))
      → concat (slice_from start end position chunks)
        ≡ slice (start - position) (end - position) (concat chunks)
  unfolding slice_from
  slice_from-slice start end position [] =
      sym (slice-beyond (start - position) (end - position) [] (omega arith))
  slice_from-slice start end position (chunk ∷ rest) =
      let after = position + length chunk in
      let from : start - after ≡ start - position - length chunk = omega arith in
      let to : end - after ≡ end - position - length chunk = omega arith in
      let piece = slice (start - position) (end - position) chunk in
      let whole =
        ap (λ i. piece ++ slice i (end - after) (concat rest)) from
        ∙ ap (λ j. piece ++ slice (start - position - length chunk) j (concat rest)) to
        ∙ sym (slice-append (start - position) (end - position) chunk (concat rest)) in
      elim (Bool-cases (leb end after)) [
        | inl last ↦ rw last (
            yield_of-slice start end position chunk []
            ∙ ap (λ t. piece ++ t)
                (sym (slice-empty (start - after) (end - after) (concat rest) (ground arith)))
            ∙ whole)
        | inr more ↦ rw more (
            yield_of-slice start end position chunk (slice_from start end after rest)
            ∙ ap (λ t. piece ++ t) (slice_from-slice start end after rest)
            ∙ whole)
      ]

-- `slice_chunks` yields the bars from `start` to `end` of the whole history, however it is cut into
-- chunks and although it stops at the chunk that reaches `end`.
pub slice_chunks-slice :
    {B : Type 0} (start end : ℕ) (chunks : List (List B))
    → concat (slice_chunks start end chunks) ≡ slice start end (concat chunks)
unfolding slice_chunks
slice_chunks-slice start end chunks =
    let from : start - 0 ≡ start = omega arith in
    let to : end - 0 ≡ end = omega arith in
    slice_from-slice start end 0 chunks
    ∙ ap (λ i. slice i (end - 0) (concat chunks)) from
    ∙ ap (λ j. slice start j (concat chunks)) to

-- A kernel run on the range that `slice_chunks` cuts out is the run on those bars in one chunk: the
-- same environment after all callbacks and the same ledger, or the same error.
pub simulate_kernel-slice_chunks :
    {A D : Type 0} ⦃n : Number A⦄ (cb : Callbacks A D) (c : Config A) (start end : ℕ)
    (chunks : List (List (Bar A))) (d : D)
    → simulate_kernel cb c (slice_chunks start end chunks) d
      ≡ simulate_kernel cb c (slice start end (concat chunks) ∷ []) d
simulate_kernel-slice_chunks cb c start end chunks d =
    simulate_kernel-rechunk cb c (slice_chunks start end chunks)
      (slice start end (concat chunks) ∷ []) d
      (slice_chunks-slice start end chunks ∙ sym (append_nil (slice start end (concat chunks))))

-- Of a history with `length (concat chunks)` rows, `split_bounds` gives three ranges whose bars, as
-- `slice_chunks` yields them, follow each other to the whole history: none is in two ranges or in none.
pub split_bounds-cover :
    {B : Type 0} (chunks : List (List B))
    → (b : Bounds) × (split_bounds (pos (length (concat chunks))) ≡ ok b)
      × (concat (slice_chunks b.train.0 b.train.1 chunks)
            ++ (concat (slice_chunks b.holdout.0 b.holdout.1 chunks)
                ++ concat (slice_chunks b.final_oos.0 b.final_oos.1 chunks))
          ≡ concat chunks)
unfolding split_bounds
split_bounds-cover chunks =
    let bars = concat chunks in
    let rows = length bars in
    let train_end = rows * 60 / 100 in
    let holdout_end = rows * 80 / 100 in
    (
      _,
      refl,
      rw
          (
            slice_chunks-slice 0 train_end chunks,
            slice_chunks-slice train_end holdout_end chunks,
            slice_chunks-slice holdout_end rows chunks,
          )
          (ap (λ t. slice 0 train_end bars ++ t)
              (slice-split train_end holdout_end rows bars (omega arith) (omega arith))
            ∙ slice-split 0 train_end rows bars (omega arith) (omega arith)
            ∙ slice-whole bars),
    )
