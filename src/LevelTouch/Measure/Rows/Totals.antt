-- ===== src/LevelTouch/Measure/Rows/Totals.antt =====
-- The rows report every case of their table.
use arkana.Base.{
  ℕ, ◌+◌, ◌≡◌, refl, ◌∙◌, Bool, List, [], ◌∷◌, map, String, Number, if◌then◌else◌, Dict, Bool-cases,
  inl, inr, arith,
}
use arkana.LevelTouch.Tally.{Tally, read}
use arkana.LevelTouch.Baseline.{Baseline}
use arkana.LevelTouch.Measure.{Case}
use arkana.LevelTouch.Measure.Sums.{total, of_case}
use arkana.LevelTouch.Measure.Rows.{
  texts_le, insert_item, sort_items, MeasureRow, ControlKey, row_for, rows, without_period,
}

-- The cases that the rows of the cases that `p` selects report, the ones beyond the data included.
abbrev pub row_total : {A P : Type 0} → (Case → Bool) → List (MeasureRow A P) → ℕ
row_total p [] = 0
row_total p (r ∷ rest) =
    let later = row_total p rest in
    if p r.case then r.reading.events + r.reading.beyond_data + later else later

module _ {P : Type 0} (p : Case → Bool) where
  total-insert_item :
      (texts : (Case × P) × Tally → List String) (i : (Case × P) × Tally)
      (d : Dict (Case × P) Tally)
      → total (of_case p) (insert_item texts i d) ≡ total (of_case p) (i ∷ d)
  unfolding insert_item
  total-insert_item texts i [] = refl
  total-insert_item texts i (j ∷ d) = elim (Bool-cases (texts_le (texts i) (texts j))) [
    | inl first ↦ rw first refl
    | inr later ↦ rw later (ground (arith, total-insert_item texts i d))
  ]

  total-sort_items :
      (texts : (Case × P) × Tally → List String) (d : Dict (Case × P) Tally)
      → total (of_case p) (sort_items texts d) ≡ total (of_case p) d
  unfolding sort_items
  total-sort_items texts [] = refl
  total-sort_items texts (i ∷ d) =
      ground (arith, total-insert_item texts i (sort_items texts d), total-sort_items texts d)

  module _ {A : Type 0} ⦃n : Number A⦄ (baseline : Dict ControlKey (Baseline A)) (even : A)
      (timing : Bool) where
    row_total-map :
        (d : Dict (Case × P) Tally)
        → row_total p (map (row_for baseline even timing) d) ≡ total (of_case p) d
    unfolding row_for read
    row_total-map [] = refl
    row_total-map (i ∷ d) = ground (arith, row_total-map d)

    pub row_total-rows :
        (texts : (Case × P) × Tally → List String) (d : Dict (Case × P) Tally)
        → row_total p (rows baseline even timing texts d) ≡ total (of_case p) d
    unfolding rows
    row_total-rows texts d = row_total-map (sort_items texts d) ∙ total-sort_items texts d

pub total-without_period :
    (p : Case → Bool) (d : Dict Case Tally) → total (of_case p) (without_period d) ≡ total p d
total-without_period p [] = refl
total-without_period p (i ∷ d) = ground (arith, total-without_period p d)
