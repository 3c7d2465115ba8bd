-- ===== src/LevelTouch/Measure/Whole.antt =====
-- The result of `measure_bars`, with `break_even_rate` and `spread_cost_points`, of
-- services/research/app/level_touch.py.
pub mod Typical
pub mod Report
use arkana.Base.{
  ℕ, ◌+◌, ◌≡◌, ◌↔◌, Bool, true, false, not, ◌&&◌, Option, none, some, List, [], ◌∷◌, ◌++◌, map,
  Result, ok, raised, ◌>>=◌, String, Number, nought, fmean, length, arith, if◌then◌else◌, Dict, Key,
  get, put, nat_key, string_key, codes, codes_le, text_in, str_eq,
}
use arkana.Market.{Bar}
use arkana.LevelTouch.{Event, bounce_from_above, break_down, bounce_from_below, break_up}
use arkana.LevelTouch.Tally.{Tally, read, Reading, Respect, respect_rates}
use arkana.LevelTouch.Baseline.{Baseline, random_baseline}
use arkana.LevelTouch.Series.{atr_series, level_at, level_series}
use arkana.LevelTouch.Request.{Distance, fixed, percent, atr, Spec}
use arkana.LevelTouch.Measure.{
  Formats, Case, pair_key, Measured, nothing_measured, distance_label, measure_loop,
}
use arkana.LevelTouch.Measure.Rows.{side_key, ControlKey, MeasureRow, without_period, row_for, rows}

pub record Measurement (A : Type 0) : Type 0 where
  pub bars : ℕ
  pub start : Option ℕ
  pub end : Option ℕ
  pub touches : Event → ℕ
  pub touches_total : ℕ
  pub skipped_without_distance : ℕ
  pub semua : Respect A × Respect A
  pub in_naik : Respect A × Respect A
  pub in_datar : Respect A × Respect A
  pub in_turun : Respect A × Respect A
  pub target_multiple : A
  pub break_even_rate : A
  pub spread_price : A
  pub spread_cost_points : Dict String A
  pub summary : List (MeasureRow A (Unit {0}))
  pub per_year : List (MeasureRow A ℕ)
  pub per_month : List (MeasureRow A String)

abbrev pub baseline_samples : ℕ
baseline_samples = 30000

module _ {A : Type 0} ⦃n : Number A⦄ where
  pub break_even_rate : A → A
  break_even_rate target_multiple = n.div (n.of_ℕ 1) (n.add (n.of_ℕ 1) target_multiple)

  pub spread_cost_points : A → A → A → A
  spread_cost_points spread distance target_multiple =
      if n.le distance nought
      then nought
      else n.div (n.mul (n.of_ℕ 100) spread) (n.mul (n.add (n.of_ℕ 1) target_multiple) distance)

  -- `fmean`, which refuses an empty list.
  pub mean_of : List A → Result A
  mean_of [] = raised "fmean requires at least one data point"
  mean_of (a ∷ rest) = ok (fmean (a ∷ rest) (length (a ∷ rest)))

  -- `[value for value in values if value]`
  pub given_values : List (Option A) → List A
  given_values [] = []
  given_values (none ∷ rest) = given_values rest
  given_values (some a ∷ rest) =
      let later = given_values rest in if n.eq a nought then later else a ∷ later

  -- `baseline[(label, timeout, long_side)] = value` for the items of one `random_baseline`.
  pub add_controls :
      String
      → Bool
      → Dict ℕ (Baseline A)
      → Dict ControlKey (Baseline A)
      → Dict ControlKey (Baseline A)
  add_controls label long [] baseline = baseline
  add_controls label long ((timeout, value) ∷ rest) baseline =
      add_controls label long rest (put (label, (timeout, long)) value baseline)

  module _ (f : Formats A) (bars : List (Bar A)) (spec : Spec A) where
    -- The inner function of `distance_rule`.
    pub distance_rule : Distance A → ℕ → A → Option A
    distance_rule (fixed value) index entry = some value
    distance_rule (percent value) index entry = some (n.div (n.mul entry value) (n.of_ℕ 100))
    distance_rule (atr multiple period) index entry =
        elim (level_at (atr_series bars period) index) [
          | none ↦ none
          | some measured ↦
              if not (n.eq measured nought) && n.lt nought measured
              then some (n.mul measured multiple)
              else none
        ]

    pub one_control :
        Distance A → Bool → Dict ControlKey (Baseline A) → Result (Dict ControlKey (Baseline A))
    unfolding add_controls distance_rule
    one_control item long baseline =
        let label = distance_label f item in
        random_baseline bars (distance_rule item) long spec.target_multiple spec.spread_price
          spec.timeouts (f.digest label long) baseline_samples
        >>= λ values. ok (add_controls label long values baseline)

    pub controls :
        List (Distance A) → Dict ControlKey (Baseline A) → Result (Dict ControlKey (Baseline A))
    unfolding one_control
    controls [] baseline = ok baseline
    controls (item ∷ items) baseline =
        one_control item true baseline >>= one_control item false >>= controls items

    -- The distance that the spread is compared with.
    unfoldable pub typical_distance : Distance A → Result A
    unfolding mean_of given_values
    typical_distance (fixed value) = ok value
    typical_distance (percent value) =
        mean_of (map (λ b. b.close) bars) >>= λ mean. ok (n.div (n.mul mean value) (n.of_ℕ 100))
    typical_distance (atr multiple period) =
        mean_of (given_values (atr_series bars period)) >>= λ mean. ok (n.mul mean multiple)

    pub spread_costs : List (Distance A) → Dict String A → Result (Dict String A)
    unfolding typical_distance spread_cost_points
    spread_costs [] costs = ok costs
    spread_costs (item ∷ items) costs = typical_distance item >>= λ distance. spread_costs items (
        put (distance_label f item)
          (spread_cost_points spec.spread_price distance spec.target_multiple) costs)

    abbrev pub case_texts : Case → List String
    case_texts (event, (label, (timeout, name))) = event ∷ label ∷ f.show_int timeout ∷ name ∷ []

    abbrev pub summary_texts : (Case × Unit {0}) × Tally → List String
    summary_texts i = case_texts i.0.0

    abbrev pub year_texts : (Case × ℕ) × Tally → List String
    year_texts i = case_texts i.0.0 ++ (f.show_int i.0.1 ∷ [])

    abbrev pub month_texts : (Case × String) × Tally → List String
    month_texts i = case_texts i.0.0 ++ (i.0.1 ∷ [])

    pub measurement_of : Dict ControlKey (Baseline A) → Dict String A → Measured → Measurement A
    unfolding break_even_rate
    measurement_of baseline costs m =
        let even = break_even_rate spec.target_multiple in
        let touches = m.touches in
        record {
          bars = length bars;
          start = m.first;
          end = m.last;
          touches = touches;
          touches_total =
              touches bounce_from_above
              + touches break_down
              + touches bounce_from_below
              + touches break_up;
          skipped_without_distance = m.skipped_without_distance;
          semua = respect_rates m.touches_by_regime.semua;
          in_naik = respect_rates m.touches_by_regime.in_naik;
          in_datar = respect_rates m.touches_by_regime.in_datar;
          in_turun = respect_rates m.touches_by_regime.in_turun;
          target_multiple = spec.target_multiple;
          break_even_rate = even;
          spread_price = spec.spread_price;
          spread_cost_points = costs;
          summary = rows baseline even true summary_texts (without_period m.tables.overall);
          per_year = rows baseline even true year_texts m.tables.yearly;
          per_month = rows baseline even false month_texts m.tables.monthly;
        }

    unfoldable pub measure_bars : Result (Measurement A)
    unfolding controls spread_costs measurement_of
    measure_bars = controls spec.distances [] >>= λ baseline.
        measure_loop f bars spec (level_series bars spec.kind spec.period) 1 bars nothing_measured
        >>= λ m. spread_costs spec.distances [] >>= λ costs. ok (measurement_of baseline costs m)
