-- ===== src/LevelTouch/Request.antt =====
-- `normalize_spec` of services/research/app/level_touch.py: a request for a measurement, refused before
-- anything is computed. A field is left out, not understood (of a wrong type) or given.
pub mod Accepted
use arkana.Base.{
  ℕ, zero, suc, ◌+◌, ◌-◌, Bool, true, false, not, ◌&&◌, ◌||◌, Option, none, some, List, [], ◌∷◌,
  ◌++◌, Result, ok, raised, ◌>>=◌, String, ltb, leb, ◌==◌, length, Number, nought, ℤ, pos, negsuc,
  if◌then◌else◌,
}
use arkana.Indicators.{Method}
use arkana.Evaluator.{Timeframe, m5}
use arkana.LevelTouch.{no_limit}
use arkana.LevelTouch.Scan.{
  Coverage, research, Given, left_out, not_understood, given, choose, between, choose_threshold,
}

-- A distance as it is asked for, and as it is accepted.
pub data DistanceRequest (A : Type 0) : Type 0 where
  fixed_request percent_request : Given A → DistanceRequest A
  atr_request : (multiple : Given A) → (period : Given ℤ) → DistanceRequest A
  unknown_request : DistanceRequest A

pub data Distance (A : Type 0) : Type 0 where
  fixed percent : A → Distance A
  atr : (multiple : A) → (period : ℕ) → Distance A

pub record SpecRequest (A : Type 0) : Type 0 where
  pub timeframe : Given Timeframe
  pub kind : Given Method
  pub period : Given ℤ
  pub distances : Given (List (DistanceRequest A))
  pub timeouts : Given (List (Given ℤ))
  pub lookback : Given ℤ
  pub threshold_percent : Given A
  pub target_multiple : Given A
  pub coverage : Given Coverage
  pub spread_price : Given A

pub record Spec (A : Type 0) : Type 0 where
  pub timeframe : Timeframe
  pub kind : Method
  pub period : ℕ
  pub distances : List (Distance A)
  pub timeouts : List ℕ
  pub lookback : ℕ
  pub threshold : A
  pub target_multiple : A
  pub coverage : Coverage
  pub spread_price : A

-- The items from 1 to 4 of a list.
pub check_count : ℕ → String → Result (Unit {0})
check_count count message = if leb 1 count && leb count 4 then ok tt else raised message

-- One timeout: 0 for no limit, or 1 to 480 bars. Whatever Python takes for equal to 0 is given as 0.
pub clean_timeout : Given ℤ → Result ℕ
clean_timeout (given (pos k)) =
    if k == no_limit
    then ok no_limit
    else if leb 1 k && leb k 480
    then ok k
    else raised "each timeout must be an integer"
clean_timeout (given (negsuc k)) = raised "each timeout must be an integer"
clean_timeout left_out = raised "each timeout must be an integer"
clean_timeout not_understood = raised "each timeout must be an integer"

pub clean_timeouts : List (Given ℤ) → Result (List ℕ)
unfolding clean_timeout
clean_timeouts [] = ok []
clean_timeouts (t ∷ rest) = do
  value ← clean_timeout t
  values ← clean_timeouts rest
  ok (value ∷ values)

-- `sorted(set(...))`: a value that is there is not added again.
pub insert_once : ℕ → List ℕ → List ℕ
insert_once a [] = a ∷ []
insert_once a (b ∷ rest) =
    if ltb a b then a ∷ b ∷ rest else if a == b then b ∷ rest else b ∷ insert_once a rest

pub sorted_set : List ℕ → List ℕ
unfolding insert_once
sorted_set [] = []
sorted_set (a ∷ rest) = insert_once a (sorted_set rest)

-- A list that is left out or empty means no limit.
pub choose_timeouts : Given (List (Given ℤ)) → Result (List ℕ)
unfolding check_count clean_timeouts sorted_set
choose_timeouts left_out = ok (no_limit ∷ [])
choose_timeouts not_understood = raised "between 1 and 4 timeouts are required"
choose_timeouts (given []) = ok (no_limit ∷ [])
choose_timeouts (given (t ∷ rest)) = do
  counted ← check_count (length (t ∷ rest)) "between 1 and 4 timeouts are required"
  values ← clean_timeouts (t ∷ rest)
  ok (sorted_set values)

module _ {A : Type 0} ⦃n : Number A⦄ where
  -- A number that a test accepts.
  pub accepted : (A → Bool) → String → Given A → Result A
  accepted test message (given a) = if test a then ok a else raised message
  accepted test message left_out = raised message
  accepted test message not_understood = raised message

  pub clean_distance : DistanceRequest A → Result (Distance A)
  unfolding accepted between
  clean_distance (fixed_request value) = do
    v ← accepted (λ a. not (n.le a nought)) "a FIXED distance needs a positive value" value
    ok (fixed v)
  clean_distance (percent_request value) = do
    v ←
        accepted (λ a. n.lt nought a && n.le a (n.of_ℕ 50))
          "a PERCENT distance needs a value above 0 and at most 50" value
    ok (percent v)
  clean_distance (atr_request multiple period) = do
    m ← accepted (λ a. not (n.le a nought)) "an ATR distance needs a positive multiple" multiple
    p ← between 2 200 14 "an ATR distance needs a period between 2 and 200" period
    ok (atr m p)
  clean_distance unknown_request = raised "distance.kind must be FIXED, PERCENT or ATR"

  pub clean_distances : List (DistanceRequest A) → Result (List (Distance A))
  unfolding clean_distance
  clean_distances [] = ok []
  clean_distances (d ∷ rest) = do
    distance ← clean_distance d
    distances ← clean_distances rest
    ok (distance ∷ distances)

  -- Left out, the distance is 5; an empty list is refused.
  pub choose_distances : Given (List (DistanceRequest A)) → Result (List (Distance A))
  unfolding clean_distances check_count
  choose_distances left_out = ok (fixed (n.of_ℕ 5) ∷ [])
  choose_distances not_understood = raised "between 1 and 4 distances are required"
  choose_distances (given requests) = do
    counted ← check_count (length requests) "between 1 and 4 distances are required"
    clean_distances requests

  -- The multiple is 1 where it is left out, and from 0.1 to 10.
  pub choose_multiple : Given A → Result A
  unfolding accepted
  choose_multiple left_out = ok (n.of_ℕ 1)
  choose_multiple g =
      accepted (λ a. n.le (n.div (n.of_ℕ 1) (n.of_ℕ 10)) a && n.le a (n.of_ℕ 10))
        "target_multiple must be a number between 0.1 and 10" g

  -- The spread is 0.25 where it is left out.
  pub choose_spread : Given A → Result A
  unfolding accepted
  choose_spread left_out = ok (n.div (n.of_ℕ 25) (n.of_ℕ 100))
  choose_spread g = accepted (λ a. not (n.lt a nought)) "spread_price must be non-negative" g

  unfoldable pub normalize_spec : SpecRequest A → Result (Spec A)
  unfolding choose between choose_threshold choose_distances choose_timeouts choose_multiple
      choose_spread
  normalize_spec r = do
    timeframe ← choose m5 "timeframe is not registered" r.timeframe
    kind ← choose Method.ema "level.kind is not known" r.kind
    period ← between 1 500 23 "level.period must be an integer between 1 and 500" r.period
    distances ← choose_distances r.distances
    timeouts ← choose_timeouts r.timeouts
    lookback ←
        between 2 500 20 "trend.lookback must be an integer between 2 and 500 bars" r.lookback
    threshold ← choose_threshold r.threshold_percent
    multiple ← choose_multiple r.target_multiple
    coverage ← choose research "coverage is not known" r.coverage
    spread ← choose_spread r.spread_price
    ok (record {
      timeframe = timeframe;
      kind = kind;
      period = period;
      distances = distances;
      timeouts = timeouts;
      lookback = lookback;
      threshold = threshold;
      target_multiple = multiple;
      coverage = coverage;
      spread_price = spread;
    })
