-- ===== src/LevelTouch/Record/Examples.antt =====
-- Measurements of a few bars, and the rows that keep them.
use arkana.Base.{
  ◌/◌, ◌==◌, ◌>>=◌, ◌↔◌, Bool, Result, raised, String, if◌then◌else◌, ◌≡◌, refl, ◌+◌, true, none,
  some, [], ◌∷◌, ok, Returned, false, ℤ, pos, int_number, nat_key, All, arith, slice,
}
use arkana.LevelTouch.Measure.{Formats, Case, Measured, nothing_measured, measure_loop}
use arkana.LevelTouch.Measure.Whole.{Measurement, typical_distance, measure_bars}
use arkana.LevelTouch.Measure.Rows.Totals.{row_total}
use arkana.LevelTouch.Measure.Whole.Typical.{HasTypical}
use arkana.LevelTouch.Measure.Whole.Report.{
  measure_bars-row_of, measure_bars-row_total, measure_bars-returns,
}
use arkana.LevelTouch.Record.{Dataset, AnySpec, to_scan, scanned, Probe, Answer, measure}
use arkana.LevelTouch.Record.Again.{measure-again}
use arkana.Indicators.{Method}
use arkana.Evaluator.{m5}
use arkana.LevelTouch.Series.{level_series, atr_series}
use arkana.Indicators.{true_range}
use arkana.Splits.{split_bounds}
use arkana.LevelTouch.Scan.{Coverage, given, ScanSpec, readable_bars, row_of}
use arkana.LevelTouch.Request.{
  SpecRequest, Spec, fixed_request, fixed, percent, atr, normalize_spec,
}
use arkana.LevelTouch.{classify, break_down}
use arkana.LevelTouch.Baseline.{random_baseline}
use arkana.LevelTouch.Examples.{bars, spec_request, measured}

abbrev formats : Formats ℤ
formats = record {
  year_of = λ t. 2024 + t / 120;
  month_of = λ t. 1;
  show_int = λ k. if k == 2024 then "2024" else "2025";
  two_digits = λ k. "01";
  show_number = λ a. "5";
  digest = λ label long. 7;
}

abbrev five_or_percent : Spec ℤ
five_or_percent = record {
  timeframe = m5;
  kind = Method.sma;
  period = 2;
  distances = fixed (pos 5) ∷ percent (pos 10) ∷ atr (pos 2) 2 ∷ [];
  timeouts = 1 ∷ 10 ∷ [];
  lookback = 2;
  threshold = pos 1;
  target_multiple = pos 1;
  coverage = Coverage.all;
  spread_price = pos 1;
}

abbrev pass : Result Measured
pass =
    measure_loop formats bars five_or_percent (level_series bars Method.sma 2) 1 bars
      nothing_measured

-- The second bar touches the average of the closes of both and closes below it.
pass_lem : pass >>= (λ m. ok (m.touches break_down)) ≡ ok 1
unfolding measure_loop level_series classify atr_series true_range
pass_lem = refl

typical : All (HasTypical bars) five_or_percent.distances
unfolding atr_series true_range
typical = (tt, (omega arith, ((2, pos 7, refl, refl), tt)))

abbrev swept : ScanSpec ℤ
swept = record {
  timeframe = m5;
  kinds = Method.sma ∷ [];
  minimum_period = 2;
  maximum_period = 2;
  coverage = Coverage.all;
  lookback = 2;
  threshold = pos 1;
}

measure_bars-row_of_example :
    let row = row_of bars swept Method.sma 2 in
    (r : Measurement ℤ) × (measure_bars formats bars five_or_percent ≡ ok r)
    × (r.semua ≡ row.semua)
    × (r.in_naik ≡ row.in_naik)
    × (r.in_datar ≡ row.in_datar)
    × (r.in_turun ≡ row.in_turun)
    × (r.touches_total ≡ row.semua.0.touches + row.semua.1.touches)
measure_bars-row_of_example =
    measure_bars-row_of formats bars five_or_percent 1 (10 ∷ []) refl typical swept refl refl

measure_bars-row_total_example :
    (r : Measurement ℤ) × (measure_bars formats bars five_or_percent ≡ ok r)
    × ((p : Case → Bool)
        → (row_total p r.per_year ≡ row_total p r.summary)
          × (row_total p r.per_month ≡ row_total p r.summary))
measure_bars-row_total_example =
    measure_bars-row_total formats bars five_or_percent 1 (10 ∷ []) refl typical

measure_bars-returns_example :
    Returned (measure_bars formats bars five_or_percent)
    ↔ All (HasTypical bars) five_or_percent.distances
measure_bars-returns_example = measure_bars-returns formats bars five_or_percent 1 (10 ∷ []) refl

-- Two bars have no average range over fourteen, and the whole measurement raises.
no_typical :
    typical_distance formats (slice 0 2 bars) measured (atr (pos 2) 14)
    ≡ raised "fmean requires at least one data point"
unfolding typical_distance atr_series
no_typical = refl

abbrev dataset : Dataset ℤ
dataset = record {
  id = "dataset";
  fingerprint = "bars";
  bars = record { timeframe = m5; row_count = 2; chunks = slice 0 2 bars ∷ [] } ∷ [];
}

abbrev fixed_only : SpecRequest ℤ
fixed_only = record spec_request {
  distances = given (fixed_request (given (pos 7)) ∷ []);
  coverage = given Coverage.all;
}

abbrev key_of : String → AnySpec ℤ → String
key_of fingerprint _ = fingerprint

-- A row for where there is none.
abbrev nothing : Probe ℤ
nothing = record {
  dataset_id = "";
  dataset_fingerprint = "";
  timeframe = m5;
  fingerprint = "";
  spec = to_scan swept;
  touches = 0;
  result = scanned none none [];
  registered_row_count = 0;
  measured_row_count = 0;
  coverage = Coverage.all;
}

abbrev answer_of : Result (Answer ℤ) → Answer ℤ → Answer ℤ
answer_of (raised message) a = a
answer_of (ok b) a = b

abbrev first_answer : Answer ℤ
first_answer =
    answer_of (measure formats key_of [] fixed_only (some dataset) false) ([], (nothing, true))

measure-again_example :
    (measure formats key_of first_answer.0 fixed_only (some dataset) false
      ≡ ok (first_answer.0, (first_answer.1.0, true)))
    × (measure formats key_of first_answer.0 fixed_only (some dataset) true
        ≡ raised "IntegrityError")
unfolding measure normalize_spec readable_bars split_bounds measure_bars random_baseline
    measure_loop
measure-again_example =
    measure-again formats key_of [] first_answer.0 fixed_only dataset false first_answer.1.0 refl
