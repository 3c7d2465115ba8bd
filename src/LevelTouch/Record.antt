-- ===== src/LevelTouch/Record.antt =====
-- `existing`, `measure` and `scan` of services/research/app/level_touch.py, on the rows of the table
-- `level_touch_probes` of services/research/app/models.py, whose fingerprints are unique. The newest
-- dataset is an argument, and so is the digest of a dataset's fingerprint with a request.
pub mod Again
mod Examples
use arkana.Base.{
  ℕ, Bool, true, false, Option, none, some, List, [], ◌∷◌, ◌++◌, map, Result, ok, raised, ◌>>=◌,
  String, Number, if◌then◌else◌, any_of, str_eq, length,
}
use arkana.Market.{Bar}
use arkana.Evaluator.{Timeframe}
use arkana.Evaluator.Lookbacks.{timeframe_key}
use arkana.LevelTouch.Scan.{
  Coverage, ScanRequest, ScanSpec, normalize_scan, readable_bars, scan_bars, Row,
}
use arkana.LevelTouch.Request.{SpecRequest, Spec, normalize_spec}
use arkana.LevelTouch.Measure.{Formats}
use arkana.LevelTouch.Measure.Whole.{Measurement, measure_bars}

-- A registered history of one timeframe, and the chunks that reading it gives.
pub record Asset (A : Type 0) : Type 0 where
  pub timeframe : Timeframe
  pub row_count : ℕ
  pub chunks : List (List (Bar A))

pub record Dataset (A : Type 0) : Type 0 where
  pub id : String
  pub fingerprint : String
  pub bars : List (Asset A)

pub data AnySpec (A : Type 0) : Type 0 where
  to_measure : Spec A → AnySpec A
  to_scan : ScanSpec A → AnySpec A

-- The span of the bars that a sweep read, and its rows.
pub data ProbeResult (A : Type 0) : Type 0 where
  measured : Measurement A → ProbeResult A
  scanned : (start end : Option ℕ) → List (Row A) → ProbeResult A

pub record Probe (A : Type 0) : Type 0 where
  pub dataset_id : String
  pub dataset_fingerprint : String
  pub timeframe : Timeframe
  pub fingerprint : String
  pub spec : AnySpec A
  pub touches : ℕ
  pub result : ProbeResult A
  pub registered_row_count : ℕ
  pub measured_row_count : ℕ
  pub coverage : Coverage

-- The rows, the one that answers, and whether it was there before.
abbrev pub Answer : Type 0 → Type 0
Answer A = List (Probe A) × (Probe A × Bool)

-- `raise ValueError` where there is nothing
abbrev pub required : {B : Type 0} → String → Option B → Result B
required message none = raised message
required message (some b) = ok b

module _ {A : Type 0} where
  -- The row with a fingerprint.
  unfoldable pub existing : String → List (Probe A) → Option (Probe A)
  existing fingerprint [] = none
  existing fingerprint (p ∷ probes) =
      if str_eq p.fingerprint fingerprint then some p else existing fingerprint probes

  -- `session.add(record); session.commit()`
  pub commit : Probe A → List (Probe A) → Result (List (Probe A))
  unfolding existing
  commit p store = elim (existing p.fingerprint store) [
    | none ↦ ok (store ++ (p ∷ []))
    | some q ↦ raised "IntegrityError"
  ]

  pub asset_for : Timeframe → List (Asset A) → Option (Asset A)
  asset_for timeframe [] = none
  asset_for timeframe (asset ∷ rest) =
      if timeframe_key.same asset.timeframe timeframe then some asset else asset_for timeframe rest

  pub store_fresh : List (Probe A) → Result (Probe A) → Result (Answer A)
  unfolding commit
  store_fresh store fresh = fresh >>= λ p. commit p store >>= λ store'. ok (store', (p, false))

  -- The timestamps of the first and the last bar.
  pub start_of : List (Bar A) → Option ℕ
  start_of [] = none
  start_of (bar ∷ rest) = some bar.timestamp

  pub end_of : List (Bar A) → Option ℕ
  end_of [] = none
  end_of (bar ∷ []) = some bar.timestamp
  end_of (bar ∷ next ∷ rest) = end_of (next ∷ rest)

  -- What follows the choice of the dataset, given the fingerprint and the computation of a new row.
  pub settle : List (Probe A) → Bool → String → Result (Probe A) → Result (Answer A)
  unfolding store_fresh
  settle store true fingerprint fresh = store_fresh store fresh
  settle store false fingerprint fresh = elim (existing fingerprint store) [
    | none ↦ store_fresh store fresh
    | some p ↦ ok (store, (p, true))
  ]

module _ {A : Type 0} ⦃n : Number A⦄ (f : Formats A)
    (fingerprint : String → AnySpec A → String) where
  pub new_measurement : Spec A → Dataset A → Result (Probe A)
  unfolding asset_for
  new_measurement clean d =
      required "timeframe is not registered for this dataset" (asset_for clean.timeframe d.bars)
      >>= λ asset. readable_bars asset.row_count asset.chunks clean.coverage >>= λ bars.
          measure_bars f bars clean >>= λ result. ok (record {
            dataset_id = d.id;
            dataset_fingerprint = d.fingerprint;
            timeframe = clean.timeframe;
            fingerprint = fingerprint d.fingerprint (to_measure clean);
            spec = to_measure clean;
            touches = result.touches_total;
            result = measured result;
            registered_row_count = asset.row_count;
            measured_row_count = length bars;
            coverage = clean.coverage;
          })

  unfoldable pub measure :
      List (Probe A) → SpecRequest A → Option (Dataset A) → Bool → Result (Answer A)
  unfolding settle new_measurement
  measure store r dataset refresh = normalize_spec r >>= λ clean.
      required "no registered dataset" dataset >>= λ d.
      settle store refresh (fingerprint d.fingerprint (to_measure clean)) (new_measurement clean d)

  pub new_scan : ScanSpec A → Dataset A → Result (Probe A)
  unfolding asset_for start_of end_of
  new_scan clean d =
      required "timeframe is not registered for this dataset" (asset_for clean.timeframe d.bars)
      >>= λ asset. readable_bars asset.row_count asset.chunks clean.coverage >>= λ bars.
          ok (record {
            dataset_id = d.id;
            dataset_fingerprint = d.fingerprint;
            timeframe = clean.timeframe;
            fingerprint = fingerprint d.fingerprint (to_scan clean);
            spec = to_scan clean;
            touches = 0;
            result = scanned (start_of bars) (end_of bars) (scan_bars bars clean);
            registered_row_count = asset.row_count;
            measured_row_count = length bars;
            coverage = clean.coverage;
          })

  pub scan : List (Probe A) → ScanRequest A → Option (Dataset A) → Bool → Result (Answer A)
  unfolding settle new_scan
  scan store r dataset refresh = normalize_scan r >>= λ clean.
      required "no registered dataset" dataset >>= λ d.
      settle store refresh (fingerprint d.fingerprint (to_scan clean)) (new_scan clean d)
