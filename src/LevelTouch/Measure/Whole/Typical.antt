-- ===== src/LevelTouch/Measure/Whole/Typical.antt =====
-- When a distance has a typical value, which the spread is compared with.
use arkana.Base.{
  ℕ, zero, suc, ◌≤◌, ◌≡◌, ◌↔◌, refl, false, Option, none, some, List, [], ◌∷◌, map, Returned,
  >>=-returns, >>=-eq-ok, Number, nought, length, arith, Bool-cases, inl, inr,
}
use arkana.Market.{Bar}
use arkana.LevelTouch.Series.{level_at, atr_series}
use arkana.Indicators.Window.{length-map}
use arkana.LevelTouch.Request.{Distance, fixed, percent, atr, Spec}
use arkana.LevelTouch.Measure.{Formats}
use arkana.LevelTouch.Measure.Whole.{typical_distance, mean_of, given_values}

module _ {A : Type 0} ⦃n : Number A⦄ where
  -- A share of the price needs a bar, and a multiple of the range a bar whose average range is there
  -- and not zero.
  abbrev pub HasTypical : List (Bar A) → Distance A → Type 0
  HasTypical bars (fixed value) = Unit
  HasTypical bars (percent value) = 1 ≤ length bars
  HasTypical bars (atr multiple period) =
      (index : ℕ) × (a : A) × (level_at (atr_series bars period) index ≡ some a)
      × (n.eq a nought ≡ false)

  mean_of-returns : (xs : List A) → Returned (mean_of xs) ↔ (1 ≤ length xs)
  unfolding mean_of
  mean_of-returns [] = (λ r. cc r.1, λ h. absurd (omega (arith, h)))
  mean_of-returns (x ∷ xs) = (λ r. omega arith, λ h. (_, refl))

  given_values-found :
      (xs : List (Option A)) (index : ℕ) (a : A)
      → level_at xs index ≡ some a
      → n.eq a nought ≡ false
      → 1 ≤ length (given_values xs)
  unfolding given_values
  given_values-found [] index a e h = cc
  given_values-found (none ∷ xs) zero a e h = cc
  given_values-found (some b ∷ xs) zero a e h =
      let same : n.eq b nought ≡ false = cc (e, h) in rw same (omega arith)
  given_values-found (none ∷ xs) (suc index) a e h = given_values-found xs index a e h
  given_values-found (some b ∷ xs) (suc index) a e h = elim (Bool-cases (n.eq b nought)) [
    | inl zero_here ↦ rw zero_here (given_values-found xs index a e h)
    | inr here ↦ rw here (omega arith)
  ]

  found-given_values :
      (xs : List (Option A))
      → 1 ≤ length (given_values xs)
      → (index : ℕ) × (a : A) × (level_at xs index ≡ some a) × (n.eq a nought ≡ false)
  unfolding given_values
  found-given_values [] h = absurd (omega (arith, h))
  found-given_values (none ∷ xs) h =
      let (index, a, e, k) = found-given_values xs h in (suc index, a, e, k)
  found-given_values (some b ∷ xs) h = elim (Bool-cases (n.eq b nought)) [
    | inl zero_here ↦
        let (index, a, e, k) = found-given_values xs (rw zero_here at h) in (suc index, a, e, k)
    | inr here ↦ (0, b, refl, here)
  ]

  module _ (f : Formats A) (bars : List (Bar A)) (spec : Spec A) where
    pub typical_distance-returns :
        (item : Distance A) → Returned (typical_distance f bars spec item) ↔ HasTypical bars item
    unfolding typical_distance
    typical_distance-returns (fixed value) = (λ r. tt, λ h. (value, refl))
    typical_distance-returns (percent value) =
        let closes = map (λ (b : Bar A). b.close) bars in
        let counted = length-map (λ (b : Bar A). b.close) bars in
        let mean = mean_of-returns closes in
        (
          λ r.
              let (m, e, _) = >>=-eq-ok (mean_of closes) _ r.1 in
              omega (arith, counted, mean.0 (m, e)),
          λ h. >>=-returns (mean_of closes) _ (mean.1 (omega (arith, counted, h))) (λ m. (_, refl)),
        )
    typical_distance-returns (atr multiple period) =
        let series = atr_series bars period in
        let mean = mean_of-returns (given_values series) in
        (
          λ r.
              let (m, e, _) = >>=-eq-ok (mean_of (given_values series)) _ r.1 in
              found-given_values series (mean.0 (m, e)),
          λ h.
              >>=-returns (mean_of (given_values series)) _
                (mean.1 (given_values-found series h.0 h.1 h.2 h.3)) (λ m. (_, refl)),
        )
