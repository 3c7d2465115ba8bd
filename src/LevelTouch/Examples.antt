-- ===== src/LevelTouch/Examples.antt =====
-- Touches and cases on a few bars, with prices in whole cents.
use arkana.Base.{
  map, ◌-◌, ◌≤◌, arith, put, drop, ℕ, ◌≡◌, refl, ◌+◌, true, some, List, [], ◌∷◌, ok, Returned,
  length, ◌++◌, ℤ, pos, int_number, Dict, get, nat_key, All, slice,
}
use arkana.Market.{Bar}
use arkana.Indicators.{Method}
use arkana.Evaluator.{m5, m15}
use arkana.LevelTouch.Series.{level_series, level_at}
use arkana.LevelTouch.Series.Line.{line, bars_needed, value_of, level_series_lem}
use arkana.LevelTouch.Scan.{
  Coverage, left_out, given, ScanRequest, ScanSpec, normalize_scan, scan_bars, readable_bars,
}
use arkana.LevelTouch.Request.{
  SpecRequest, Spec, fixed_request, atr_request, fixed, atr, normalize_spec,
}
use arkana.LevelTouch.Request.Accepted.{IsAscending, normalize_spec-IsAccepted}
use arkana.LevelTouch.Scan.Readable.{readable_bars-slice}
use arkana.LevelTouch.Scan.Limits.{normalize_scan-scan_bars}
use arkana.LevelTouch.{Verdict, classify, limit_of, bounce_from_above, resolve}
use arkana.LevelTouch.Outcome.{case_outcome, resolve-case_outcome}
use arkana.LevelTouch.Tally.{new_tally, read}
use arkana.LevelTouch.Tally.Counts.{
  add_cases, read-add_cases, count_of, is_target, is_stop, is_timeout, is_data_end, steps_of,
}
use arkana.LevelTouch.Baseline.{random_baseline}
use arkana.LevelTouch.Baseline.Total.{random_baseline-returns}

abbrev pub bar : ℕ → ℕ → ℕ → ℕ → ℕ → Bar ℤ
bar t o h l c = record {
  timestamp = t;
  open_price = pos o;
  high = pos h;
  low = pos l;
  close = pos c;
}

abbrev pub bars : List (Bar ℤ)
bars =
    bar 0 100 104 98 103
    ∷ bar 60 103 105 101 102
    ∷ bar 120 102 112 101 111
    ∷ bar 180 111 112 80 90
    ∷ []

bounces : classify (bar 60 103 105 99 102) (pos 100) (pos 103) ≡ some bounce_from_above
unfolding classify
bounces = refl

answers_both :
    resolve bars 1 (pos 103) (pos 93) (pos 113) true (1 ∷ 2 ∷ 9 ∷ [])
    ≡ ok ((1, (Verdict.timeout, 1)) ∷ (2, (Verdict.stop, 2)) ∷ (9, (Verdict.stop, 2)) ∷ [])
unfolding resolve put
answers_both = refl

resolve-case_outcome_example :
    (outcome : Dict ℕ (Verdict × ℕ)) × (resolve bars 1
        (pos 103)
        (pos 93)
        (pos 113)
        true
        (1 ∷ 0 ∷ [])
      ≡ ok outcome)
    × All
        (λ v.
          get v outcome ≡ some (case_outcome true (pos 93) (pos 113) (drop 1 bars) (limit_of v)))
        (1 ∷ 0 ∷ [])
resolve-case_outcome_example =
    resolve-case_outcome bars 1 (pos 103) (pos 93) (pos 113) true 1 (0 ∷ [])

abbrev cases : List (Verdict × ℕ)
cases = (Verdict.target, 3) ∷ (Verdict.data_end, 0) ∷ (Verdict.stop, 2) ∷ (Verdict.target, 5) ∷ []

read-add_cases_example :
    let t = add_cases cases new_tally in
    let r = read {A = ℤ} t true in
    (r.events + count_of is_data_end cases ≡ length cases)
    × (r.target_first ≡ count_of is_target cases)
    × (r.stop_first ≡ count_of is_stop cases)
    × (r.unresolved ≡ count_of is_timeout cases)
    × (r.beyond_data ≡ count_of is_data_end cases)
    × (t.bars_to_target ≡ steps_of is_target cases)
    × (t.bars_to_stop ≡ steps_of is_stop cases)
read-add_cases_example = read-add_cases ℤ cases true

random_baseline-returns_example :
    Returned
      (random_baseline bars (λ index entry. some (pos 5)) true (pos 2) (pos 1) (10 ∷ 20 ∷ []) 7 3)
random_baseline-returns_example =
    random_baseline-returns bars (λ index entry. some (pos 5)) true (pos 2) (pos 1) 10 (20 ∷ []) 7 3

level_series_lem_example :
    let closes = map (λ (b : Bar ℤ). b.close) bars in
    (length (level_series bars Method.sma 2) ≡ length bars)
    × ((i : ℕ)
        → level_at (level_series bars Method.sma 2) i
          ≡ line (bars_needed Method.sma 2 - 1) (length bars) (value_of closes Method.sma 2) i)
level_series_lem_example = level_series_lem bars Method.sma 2 (omega arith)

-- The third place of the simple average over two bars.
sma_third : level_at (level_series bars Method.sma 2) 2 ≡ some (pos 106)
unfolding level_series
sma_third = refl

abbrev request : ScanRequest ℤ
request = record {
  timeframe = left_out;
  kinds = given (some Method.sma ∷ []);
  minimum_period = given (pos 2);
  maximum_period = given (pos 3);
  coverage = left_out;
  lookback = left_out;
  threshold_percent = given (pos 1);
}

abbrev spec : ScanSpec ℤ
spec = record {
  timeframe = m15;
  kinds = Method.sma ∷ [];
  minimum_period = 2;
  maximum_period = 3;
  coverage = Coverage.all;
  lookback = 20;
  threshold = pos 1;
}

normalize_scan-scan_bars_example :
    (2 ≤ spec.minimum_period)
    × (spec.minimum_period ≤ spec.maximum_period)
    × (spec.maximum_period ≤ 200)
    × (2 ≤ spec.lookback)
    × (spec.lookback ≤ 500)
    × (length (scan_bars bars spec) ≤ 120)
unfolding normalize_scan
normalize_scan-scan_bars_example = normalize_scan-scan_bars request spec bars refl

abbrev pub spec_request : SpecRequest ℤ
spec_request = record {
  timeframe = left_out;
  kind = left_out;
  period = given (pos 50);
  distances = given (fixed_request (given (pos 7)) ∷ atr_request (given (pos 2)) left_out ∷ []);
  timeouts = given (given (pos 60) ∷ given (pos 0) ∷ given (pos 60) ∷ []);
  lookback = left_out;
  threshold_percent = given (pos 1);
  target_multiple = left_out;
  coverage = left_out;
  spread_price = given (pos 2);
}

abbrev pub measured : Spec ℤ
measured = record {
  timeframe = m5;
  kind = Method.ema;
  period = 50;
  distances = fixed (pos 7) ∷ atr (pos 2) 14 ∷ [];
  timeouts = 0 ∷ 60 ∷ [];
  lookback = 20;
  threshold = pos 1;
  target_multiple = pos 1;
  coverage = Coverage.research;
  spread_price = pos 2;
}

normalize_spec-IsAccepted_example :
    ((1 ≤ measured.period) × (measured.period ≤ 500))
    × ((1 ≤ length measured.distances) × (length measured.distances ≤ 4))
    × ((1 ≤ length measured.timeouts)
        × (length measured.timeouts ≤ 4)
        × All (λ v. v ≤ 480) measured.timeouts
        × IsAscending measured.timeouts)
unfolding normalize_spec
normalize_spec-IsAccepted_example = normalize_spec-IsAccepted spec_request measured refl

abbrev two_chunks : List (List (Bar ℤ))
two_chunks = bars ∷ (bar 240 90 91 89 90 ∷ []) ∷ []

readable_bars-slice_example :
    (readable_bars 5 two_chunks Coverage.research
      ≡ ok (slice 0 4 (bars ++ bar 240 90 91 89 90 ∷ [])))
    × (readable_bars 5 two_chunks Coverage.all ≡ ok (bars ++ bar 240 90 91 89 90 ∷ []))
readable_bars-slice_example = readable_bars-slice two_chunks
