-- ===== src/MarketData/Batches.antt =====
-- The batches of the merge.
use arkana.Base.{
  ℕ, zero, suc, ◌≤◌, ◌<◌, ◌≡◌, refl, ap, ◌∙◌, List, [], ◌∷◌, ◌++◌, leb, length, if◌then◌else◌, All,
  length-append, Bool-cases, inl, inr, arith,
}
use arkana.MarketData.{Head, least, same_of, advance, chosen_of, merge_loop, total}
use arkana.MarketData.Rounds.{merged, total-advance, same_of-least}
use arkana.Kernel.Chunks.{concat}

module _ {B : Type 0} (time : B → ℕ) where
  -- The batches of a merge: a batch is yielded when it has `size` rows.
  pub cut : ℕ → List B → List B → List (List B)
  cut size [] [] = []
  cut size (b ∷ output) [] = (b ∷ output) ∷ []
  cut size output (r ∷ rows) =
      let filled = output ++ r ∷ [] in
      let yielded = filled ∷ cut size [] rows in
      let held = cut size filled rows in if leb size (length filled) then yielded else held

  -- With fuel for every row, the loop yields the batches of the merge.
  pub merge_loop-eq-cut :
      (fuel size : ℕ) (output : List B) (heads : List (Head B))
      → total heads < fuel
      → merge_loop time fuel size output heads ≡ cut size output (merged time fuel heads)
  unfolding merge_loop merged cut total
  merge_loop-eq-cut zero size output heads h = absurd (omega (arith, h))
  merge_loop-eq-cut (suc fuel) size [] [] h = refl
  merge_loop-eq-cut (suc fuel) size (b ∷ output) [] h = refl
  merge_loop-eq-cut (suc fuel) size output (k ∷ heads) h =
      let t = least time (time k.row) heads in
      let filled = output ++ chosen_of time k (same_of time t (k ∷ heads)) ∷ [] in
      let fewer : total (advance time t (k ∷ heads)) < fuel =
        omega (arith, h, total-advance time t (k ∷ heads), same_of-least time k heads) in
      elim (Bool-cases (leb size (length filled))) [
        | inl full ↦ rw full (
            ap (λ rest. filled ∷ rest)
              (merge_loop-eq-cut fuel size [] (advance time t (k ∷ heads)) fewer))
        | inr short ↦
            rw short (merge_loop-eq-cut fuel size filled (advance time t (k ∷ heads)) fewer)
      ]

  append_one : (xs : List B) (b : B) (ys : List B) → (xs ++ b ∷ []) ++ ys ≡ xs ++ b ∷ ys
  append_one [] b ys = refl
  append_one (x ∷ xs) b ys = ap (λ t. x ∷ t) (append_one xs b ys)

  pub concat-cut :
      (size : ℕ) (output rows : List B) → concat (cut size output rows) ≡ output ++ rows
  unfolding cut
  concat-cut size [] [] = refl
  concat-cut size (b ∷ output) [] = refl
  concat-cut size output (r ∷ rows) =
      let filled = output ++ r ∷ [] in
      elim (Bool-cases (leb size (length filled))) [
        | inl full ↦
            rw full (ap (λ t. filled ++ t) (concat-cut size [] rows) ∙ append_one output r rows)
        | inr short ↦ rw short (concat-cut size filled rows ∙ append_one output r rows)
      ]

  -- No batch is empty or larger than `size`.
  pub cut-sizes :
      (size : ℕ) (output rows : List B)
      → length output < size
      → All (λ (c : List B). (1 ≤ length c) × (length c ≤ size)) (cut size output rows)
  unfolding cut
  cut-sizes size [] [] h = tt
  cut-sizes size (b ∷ output) [] h = ((omega arith, omega (arith, h)), tt)
  cut-sizes size output (r ∷ rows) h =
      let filled = output ++ r ∷ [] in
      let one_more = length-append output (r ∷ []) in
      elim (Bool-cases (leb size (length filled))) [
        | inl full ↦ rw full (
          (omega (arith, one_more), omega (arith, one_more, h)),
          cut-sizes size [] rows (omega (arith, h)),
        )
        | inr short ↦ rw short (cut-sizes size filled rows (ground (arith, one_more)))
      ]
