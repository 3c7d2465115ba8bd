-- ===== src/LevelTouch/Scan.antt =====
-- `readable_bars`, `normalize_scan` and `scan_bars` of services/research/app/level_touch.py: the bars
-- that a request may read, the request that is refused before anything is computed, and the sweep of
-- averages. A field of a request is left out, not understood or given.
pub mod Limits
pub mod Readable
use arkana.Base.{
  ℕ, zero, suc, ◌+◌, ◌-◌, Bool, true, false, not, ◌&&◌, ◌||◌, Option, none, some, List, [], ◌∷◌,
  ◌++◌, Result, ok, raised, ◌>>=◌, String, ltb, leb, length, slice, Number, nought, any_of, all_of,
  ℤ, pos, negsuc, if◌then◌else◌,
}
use arkana.Market.{Bar}
use arkana.Indicators.{Method}
use arkana.Evaluator.{Timeframe, m15}
use arkana.Splits.{Bounds, split_bounds}
use arkana.LevelTouch.{
  Event, bounce_from_above, break_down, bounce_from_below, break_up, Regime, naik, datar, turun,
  classify,
}
use arkana.LevelTouch.Tally.{Respect, respect_rates}
use arkana.LevelTouch.Series.{level_series, level_at, trend_regime}

pub data Coverage : Type 0 where
  research all : Coverage

module _ {B : Type 0} (start end : ℕ) where
  -- The loop over the chunks, at `position`.
  unfoldable pub read_from : ℕ → List (List B) → List B
  read_from position [] = []
  read_from position (chunk ∷ rest) =
      let chunk_end = position + length chunk in
      let left = if ltb start position then position else start in
      let right = if ltb chunk_end end then chunk_end else end in
      let later = read_from chunk_end rest in
      let piece = if ltb left right then slice (left - position) (right - position) chunk else [] in
      if leb chunk_end start then later else piece ++ (if leb end chunk_end then [] else later)

-- The first and the last row of the readable partitions, "train" and "holdout".
abbrev pub readable_range : Coverage → ℕ → Bounds → ℕ × ℕ
readable_range coverage row_count b =
    let start = if ltb b.holdout.0 b.train.0 then b.holdout.0 else b.train.0 in
    let end = if ltb b.train.1 b.holdout.1 then b.holdout.1 else b.train.1 in
    elim coverage [ research ↦ (start, end) | all ↦ (start, row_count) ]

unfoldable pub readable_bars : {B : Type 0} → ℕ → List (List B) → Coverage → Result (List B)
unfolding read_from
readable_bars row_count chunks coverage = do
  bounds ← split_bounds (pos row_count)
  let range = readable_range coverage row_count bounds
  ok (read_from range.0 range.1 0 chunks)

pub data Given (B : Type 0) : Type 0 where
  left_out not_understood : Given B
  given : B → Given B

pub record ScanRequest (A : Type 0) : Type 0 where
  pub timeframe : Given Timeframe
  pub kinds : Given (List (Option Method))
  pub minimum_period : Given ℤ
  pub maximum_period : Given ℤ
  pub coverage : Given Coverage
  pub lookback : Given ℤ
  pub threshold_percent : Given A

pub record ScanSpec (A : Type 0) : Type 0 where
  pub timeframe : Timeframe
  pub kinds : List Method
  pub minimum_period : ℕ
  pub maximum_period : ℕ
  pub coverage : Coverage
  pub lookback : ℕ
  pub threshold : A

unfoldable pub choose : {B : Type 0} → B → String → Given B → Result B
choose default message left_out = ok default
choose default message not_understood = raised message
choose default message (given b) = ok b

-- An integer between two bounds.
unfoldable pub between : ℕ → ℕ → ℕ → String → Given ℤ → Result ℕ
between low high default message left_out = ok default
between low high default message not_understood = raised message
between low high default message (given (negsuc k)) = raised message
between low high default message (given (pos k)) =
    if leb low k && leb k high then ok k else raised message

abbrev pub is_known : Option Method → Bool
is_known none = false
is_known (some m) = true

abbrev pub is_kind : Method → Option Method → Bool
is_kind m none = false
is_kind Method.sma (some Method.sma) = true
is_kind Method.sma (some Method.ema) = false
is_kind Method.ema (some Method.sma) = false
is_kind Method.ema (some Method.ema) = true

-- `sorted({str(item).upper() for item in kinds})`
abbrev pub sorted_kinds : List (Option Method) → List Method
sorted_kinds kinds =
    (if any_of (is_kind Method.ema) kinds then Method.ema ∷ [] else [])
    ++ (if any_of (is_kind Method.sma) kinds then Method.sma ∷ [] else [])

pub choose_kinds : Given (List (Option Method)) → Result (List Method)
choose_kinds left_out = ok (Method.ema ∷ Method.sma ∷ [])
choose_kinds not_understood = raised "kinds must be a non-empty list"
choose_kinds (given []) = raised "kinds must be a non-empty list"
choose_kinds (given (kind ∷ kinds)) =
    if all_of is_known (kind ∷ kinds)
    then ok (sorted_kinds (kind ∷ kinds))
    else raised "kinds must be a non-empty list"

pub check_span : ℕ → ℕ → Result (Unit {0})
check_span lowest highest =
    if ltb highest lowest
    then raised "minimum_period cannot exceed maximum_period"
    else if ltb 60 (highest - lowest + 1)
    then raised "a scan covers at most 60 periods at a time"
    else ok tt

module _ {A : Type 0} ⦃n : Number A⦄ where
  -- The default is 0.15 percent.
  unfoldable pub choose_threshold : Given A → Result A
  choose_threshold left_out = ok (n.div (n.of_ℕ 15) (n.of_ℕ 100))
  choose_threshold not_understood =
      raised "trend.threshold_percent must be a number between 0 and 10"
  choose_threshold (given a) =
      if n.le nought a && n.le a (n.of_ℕ 10)
      then ok a
      else raised "trend.threshold_percent must be a number between 0 and 10"

  unfoldable pub normalize_scan : ScanRequest A → Result (ScanSpec A)
  unfolding choose between choose_kinds check_span choose_threshold
  normalize_scan r = do
    timeframe ← choose m15 "timeframe is not registered" r.timeframe
    kinds ← choose_kinds r.kinds
    lowest ← between 2 200 20 "periods must be integers between 2 and 200" r.minimum_period
    highest ← between 2 200 50 "periods must be integers between 2 and 200" r.maximum_period
    checked ← check_span lowest highest
    coverage ← choose all "coverage is not known" r.coverage
    lookback ←
        between 2 500 20 "trend.lookback must be an integer between 2 and 500 bars" r.lookback
    threshold ← choose_threshold r.threshold_percent
    ok (record {
      timeframe = timeframe;
      kinds = kinds;
      minimum_period = lowest;
      maximum_period = highest;
      coverage = coverage;
      lookback = lookback;
      threshold = threshold;
    })

abbrev pub is_event : Event → Event → Bool
is_event bounce_from_above bounce_from_above = true
is_event break_down break_down = true
is_event bounce_from_below bounce_from_below = true
is_event break_up break_up = true
is_event _ _ = false

-- `counts[name][event] += 1`
abbrev pub bump : Event → (Event → ℕ) → Event → ℕ
bump event counts e = if is_event event e then counts e + 1 else counts e

-- The counts under "SEMUA" and under each regime.
pub record Counts : Type 0 where
  pub semua : Event → ℕ
  pub in_naik : Event → ℕ
  pub in_datar : Event → ℕ
  pub in_turun : Event → ℕ

unfoldable pub count_touch : Event → Option Regime → Counts → Counts
count_touch event none c = record c { semua = bump event c.semua }
count_touch event (some naik) c = record c {
  semua = bump event c.semua;
  in_naik = bump event c.in_naik;
}
count_touch event (some datar) c = record c {
  semua = bump event c.semua;
  in_datar = bump event c.in_datar;
}
count_touch event (some turun) c = record c {
  semua = bump event c.semua;
  in_turun = bump event c.in_turun;
}

abbrev pub no_counts : Counts
no_counts = record { semua = λ e. 0; in_naik = λ e. 0; in_datar = λ e. 0; in_turun = λ e. 0 }

pub record Row (A : Type 0) : Type 0 where
  pub kind : Method
  pub period : ℕ
  pub semua : Respect A × Respect A
  pub in_naik : Respect A × Respect A
  pub in_datar : Respect A × Respect A
  pub in_turun : Respect A × Respect A

module _ {A : Type 0} ⦃n : Number A⦄ where
  -- One round of the loop over the indices.
  unfoldable pub count_bar : List (Option A) → ℕ → A → ℕ → Bar A → Bar A → Counts → Counts
  unfolding count_touch
  count_bar levels lookback threshold index previous bar c = elim (level_at levels index) [
    | none ↦ c
    | some level ↦ elim (classify bar level previous.close) [
      | none ↦ c
      | some event ↦ count_touch event (trend_regime levels index lookback threshold) c
    ]
  ]

  -- `for index in range(1, len(bars) - 1)`, over the bars from `index - 1` on.
  unfoldable pub count_touches : List (Option A) → ℕ → A → ℕ → List (Bar A) → Counts → Counts
  unfolding count_bar
  count_touches levels lookback threshold index (previous ∷ bar ∷ next ∷ rest) c =
      count_touches levels lookback threshold (index + 1) (bar ∷ next ∷ rest)
        (count_bar levels lookback threshold index previous bar c)
  count_touches levels lookback threshold index _ c = c

  unfoldable pub row_of : List (Bar A) → ScanSpec A → Method → ℕ → Row A
  unfolding count_touches
  row_of bars spec kind period =
      let c =
        count_touches (level_series bars kind period) spec.lookback spec.threshold 1 bars
          no_counts in
      record {
        kind = kind;
        period = period;
        semua = respect_rates c.semua;
        in_naik = respect_rates c.in_naik;
        in_datar = respect_rates c.in_datar;
        in_turun = respect_rates c.in_turun;
      }

  -- `count` periods from `period` on
  pub rows_of : List (Bar A) → ScanSpec A → Method → ℕ → ℕ → List (Row A)
  unfolding row_of
  rows_of bars spec kind period zero = []
  rows_of bars spec kind period (suc count) =
      row_of bars spec kind period ∷ rows_of bars spec kind (period + 1) count

  pub scan_kinds : List (Bar A) → ScanSpec A → List Method → List (Row A)
  unfolding rows_of
  scan_kinds bars spec [] = []
  scan_kinds bars spec (kind ∷ kinds) =
      rows_of bars spec kind spec.minimum_period (spec.maximum_period + 1 - spec.minimum_period)
      ++ scan_kinds bars spec kinds

  pub scan_bars : List (Bar A) → ScanSpec A → List (Row A)
  unfolding scan_kinds
  scan_bars bars spec = scan_kinds bars spec spec.kinds
