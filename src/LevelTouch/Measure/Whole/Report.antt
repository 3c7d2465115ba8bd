-- ===== src/LevelTouch/Measure/Whole/Report.antt =====
-- What a whole measurement reports, and when there is one.
use arkana.Base.{
  ℕ, ◌+◌, ◌≡◌, ◌↔◌, refl, sym, ap, ◌∙◌, Bool, true, false, Option, List, [], ◌∷◌, ok, Returned,
  >>=-returns, >>=-eq-ok, String, Number, Dict, All, arith,
}
use arkana.Market.{Bar}
use arkana.LevelTouch.Tally.{rate, respect_rates}
use arkana.LevelTouch.Baseline.{Baseline}
use arkana.LevelTouch.Baseline.Total.{random_baseline-returns}
use arkana.LevelTouch.Series.{level_series}
use arkana.LevelTouch.Scan.{ScanSpec, row_of, count_touches, no_counts}
use arkana.LevelTouch.Request.{Distance, Spec}
use arkana.LevelTouch.Measure.{
  Formats, Case, Measured, nothing_measured, distance_label, measure_loop,
}
use arkana.LevelTouch.Measure.Pass.{InStep, measure_loop-Reached}
use arkana.LevelTouch.Measure.Rows.{ControlKey, without_period}
use arkana.LevelTouch.Measure.Rows.Totals.{row_total, row_total-rows, total-without_period}
use arkana.LevelTouch.Measure.Whole.Typical.{HasTypical, typical_distance-returns}
use arkana.LevelTouch.Measure.Whole.{
  Measurement, distance_rule, one_control, controls, typical_distance, spread_costs,
  break_even_rate, summary_texts, year_texts, month_texts, measurement_of, measure_bars,
}

module _ {A : Type 0} ⦃n : Number A⦄ (f : Formats A) (bars : List (Bar A)) (spec : Spec A) where
  spread_costs-returns :
      (items : List (Distance A)) (costs : Dict String A)
      → All (HasTypical bars) items
      → Returned (spread_costs f bars spec items costs)
  unfolding spread_costs
  spread_costs-returns [] costs h = (costs, refl)
  spread_costs-returns (item ∷ items) costs h =
      >>=-returns (typical_distance f bars spec item) _
        ((typical_distance-returns f bars spec item).1 h.0)
        (λ distance. spread_costs-returns items _ h.1)

  spread_costs-HasTypical :
      (items : List (Distance A)) (costs : Dict String A) {costs' : Dict String A}
      → spread_costs f bars spec items costs ≡ ok costs'
      → All (HasTypical bars) items
  unfolding spread_costs
  spread_costs-HasTypical [] costs e = tt
  spread_costs-HasTypical (item ∷ items) costs e =
      let (distance, found, e₁) = >>=-eq-ok (typical_distance f bars spec item) _ e in
      (
        (typical_distance-returns f bars spec item).0 (distance, found),
        spread_costs-HasTypical items _ e₁,
      )

  module _ (first : ℕ) (others : List ℕ) (h : spec.timeouts ≡ first ∷ others) where
    one_control-returns :
        (item : Distance A) (long : Bool) (baseline : Dict ControlKey (Baseline A))
        → Returned (one_control f bars spec item long baseline)
    unfolding one_control
    one_control-returns item long baseline = rw h (
        >>=-returns _ _
          (random_baseline-returns bars (distance_rule f bars spec item) long spec.target_multiple
            spec.spread_price first others (f.digest (distance_label f item) long) 30000)
          (λ values. (_, refl)))

    controls-returns :
        (items : List (Distance A)) (baseline : Dict ControlKey (Baseline A))
        → Returned (controls f bars spec items baseline)
    unfolding controls
    controls-returns [] baseline = (baseline, refl)
    controls-returns (item ∷ items) baseline =
        let longs = one_control-returns item true baseline in
        let shorts = λ (b : Dict ControlKey (Baseline A)). one_control-returns item false b in
        >>=-returns _ (controls f bars spec items)
          (>>=-returns _ (one_control f bars spec item false) longs shorts) (controls-returns items)

    abbrev pub Says : Measurement A → Measured → Type 0
    Says r m =
        (baseline : Dict ControlKey (Baseline A)) × (costs : Dict String A) × (r
          ≡ measurement_of f bars spec baseline costs m)

    abbrev levels : List (Option A)
    levels = level_series bars spec.kind spec.period

    -- The measurement of a pass that returns.
    measure_bars-Says :
        All (HasTypical bars) spec.distances
        → (r : Measurement A) × (measure_bars f bars spec ≡ ok r)
          × (m : Measured) × InStep m
              (count_touches levels spec.lookback spec.threshold 1 bars no_counts)
          × Says r m
    unfolding measure_bars
    measure_bars-Says typical =
        let (baseline, drawn) = controls-returns spec.distances [] in
        let (m, passed, in_step) =
          measure_loop-Reached f bars spec first others h levels 1 bars nothing_measured no_counts
            (record { balanced = λ p. (refl, refl); counts = refl; touches = refl }) in
        let (costs, priced) = spread_costs-returns spec.distances [] typical in
        (
          measurement_of f bars spec baseline costs m,
          rw (drawn, passed, priced) refl,
          m,
          in_step,
          (baseline, costs, refl),
        )

    -- With at least one timeout and a typical distance for each distance, a measurement returns, and
    -- for every regime its rates are those of the row that the sweep reports for the same average,
    -- lookback and threshold; its touches, which it counts apart, add up to those of the row.
    pub measure_bars-row_of :
        All (HasTypical bars) spec.distances
        → (scan : ScanSpec A) → scan.lookback ≡ spec.lookback
        → scan.threshold ≡ spec.threshold
        → let row = row_of bars scan spec.kind spec.period in
          (r : Measurement A) × (measure_bars f bars spec ≡ ok r)
          × (r.semua ≡ row.semua)
          × (r.in_naik ≡ row.in_naik)
          × (r.in_datar ≡ row.in_datar)
          × (r.in_turun ≡ row.in_turun)
          × (r.touches_total ≡ row.semua.0.touches + row.semua.1.touches)
    unfolding row_of measurement_of respect_rates rate
    measure_bars-row_of typical scan same_lookback same_threshold =
        let (r, returned, m, s, (baseline, costs, said)) = measure_bars-Says typical in
        rw (same_lookback, same_threshold)
          (
            measurement_of f bars spec baseline costs m,
            returned ∙ ap ok said,
            ap (λ c. respect_rates c.semua) s.counts,
            ap (λ c. respect_rates c.in_naik) s.counts,
            ap (λ c. respect_rates c.in_datar) s.counts,
            ap (λ c. respect_rates c.in_turun) s.counts,
            rw (s.touches) (omega arith),
          )

    -- With at least one timeout and a typical distance for each distance, a measurement returns, and
    -- for every selection of cases the rows of the years, and those of the months, report as many
    -- cases as those of the summary, the cases that the data ended included.
    pub measure_bars-row_total :
        All (HasTypical bars) spec.distances
        → (r : Measurement A) × (measure_bars f bars spec ≡ ok r)
          × ((p : Case → Bool)
              → (row_total p r.per_year ≡ row_total p r.summary)
                × (row_total p r.per_month ≡ row_total p r.summary))
    unfolding measurement_of
    measure_bars-row_total typical =
        let (r, returned, m, s, (baseline, costs, said)) = measure_bars-Says typical in
        (
          measurement_of f bars spec baseline costs m,
          returned ∙ ap ok said,
          λ p.
              let even = break_even_rate spec.target_multiple in
              let summary =
                row_total-rows p baseline even true (summary_texts f bars spec)
                  (without_period m.tables.overall)
                ∙ total-without_period p m.tables.overall in
              (
                row_total-rows p baseline even true (year_texts f bars spec) m.tables.yearly
                    ∙ (s.balanced p).0
                    ∙ sym summary,
                row_total-rows p baseline even false (month_texts f bars spec) m.tables.monthly
                    ∙ (s.balanced p).1
                    ∙ sym summary,
              ),
        )

    -- With at least one timeout, a measurement returns where, and only where, there is a bar if a
    -- distance is a share of the price, and for each distance that is a multiple of the average range
    -- there is a bar at which that range is there and not zero; otherwise it raises.
    pub measure_bars-returns :
        Returned (measure_bars f bars spec) ↔ All (HasTypical bars) spec.distances
    unfolding measure_bars
    measure_bars-returns = (
      λ r.
          let (baseline, _, e₁) = >>=-eq-ok (controls f bars spec spec.distances []) _ r.1 in
          let (m, _, e₂) =
            >>=-eq-ok (measure_loop f bars spec levels 1 bars nothing_measured) _ e₁ in
          let (costs, priced, _) = >>=-eq-ok (spread_costs f bars spec spec.distances []) _ e₂ in
          spread_costs-HasTypical spec.distances [] priced,
      λ typical. let (r, returned, m, s, said) = measure_bars-Says typical in (r, returned),
    )
