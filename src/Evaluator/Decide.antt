-- ===== src/Evaluator/Decide.antt =====
-- `decide`, `_session` and `_distances` of `CompletedCandleEvaluator`, and
-- `StreamingCompletedCandleEvaluator`, both in services/research/app/completed_candle_evaluator.py.
pub mod Usable
use arkana.Base.{
  ℕ, zero, suc, ◌+◌, ◌-◌, ◌*◌, ◌/◌, ◌%◌, Bool, true, false, not, ◌&&◌, Option, none, some, List, [],
  ◌∷◌, ◌++◌, map, Result, ok, raised, ◌>>=◌, ltb, leb, Number, nought, any_of, all_of,
  if◌then◌else◌, Dict, get, put, foldl,
}
use arkana.Market.{Bar}
use arkana.Kernel.{Evaluation, Value, number}
use arkana.Indicators.{suffix, average_true_range}
use arkana.Evaluator.{Timeframe, minutes, Rules, no_rules, rules_truth}
use arkana.Evaluator.Lookbacks.{timeframe_key, rules_lookbacks, need}

-- The sections of a contract that the evaluator reads. A scaling is a period and a multiplier.
pub record Contract (A : Type 0) : Type 0 where
  pub execution : Timeframe
  pub context_rules : Rules A
  pub setup_rules : Rules A
  pub trigger_rules : Rules A
  pub session_windows : Option (List (ℕ × ℕ))
  pub stop_scaling : Option (ℕ × A)
  pub target_scaling : Option (ℕ × A)

-- What `_distances` returns: `None`, evidence that is not sufficient, or the scaled distances.
pub data Distances (A : Type 0) : Type 0 where
  not_scaled insufficient : Distances A
  scaled : (stop target : Option A) → Distances A

-- `timestamp.hour`, of a time in seconds.
pub hour_of : ℕ → ℕ
hour_of timestamp = timestamp / 3600 % 24

pub close_time : {A : Type 0} → Timeframe → Bar A → ℕ
close_time t b = b.timestamp + 60 * minutes t

-- Whether the session block, if there is one, admits the signal.
pub in_session : {A : Type 0} → Contract A → Bar A → Bool
unfolding hour_of
in_session c signal = elim c.session_windows [
  | none ↦ true
  | some windows ↦
      any_of (λ w. leb w.0 (hour_of signal.timestamp) && leb (hour_of signal.timestamp) w.1) windows
]

-- `_required_lookbacks`
pub required_lookbacks : {A : Type 0} → Contract A → Dict Timeframe ℕ
required_lookbacks c =
    let lookbacks =
      λ (rules : Rules _) (result : Dict Timeframe ℕ). rules_lookbacks c.execution rules result in
    let of_rules =
      lookbacks c.trigger_rules
        (lookbacks c.setup_rules (lookbacks c.context_rules ((c.execution, 1) ∷ []))) in
    let widen = λ (scaling : Option (ℕ × _)) (result : Dict Timeframe ℕ).
      let widened : Dict Timeframe ℕ = elim scaling [
        | none ↦ result
        | some (period, _) ↦ need c.execution (period + 1) result
      ] in
      widened in
    widen c.target_scaling (widen c.stop_scaling of_rules)

module _ {A : Type 0} ⦃n : Number A⦄ where
  -- One side: `inl` nothing to scale is `some none`; `none` is an ATR that is missing or not positive.
  pub scaled_side : List (Bar A) → Option (ℕ × A) → Option (Option A)
  scaled_side bars none = some none
  scaled_side bars (some (period, multiplier)) = elim (average_true_range bars period) [
    | none ↦ none
    | some atr ↦ if n.le atr nought then none else some (some (n.mul multiplier atr))
  ]

  abbrev pub join_sides : Option (Option A) → Option (Option A) → Distances A
  join_sides (some stop) (some target) = scaled stop target
  join_sides _ _ = insufficient

  -- The candles are not asked for where no side is scaled.
  pub distances_of : Option (ℕ × A) → Option (ℕ × A) → Result (List (Bar A)) → Result (Distances A)
  unfolding scaled_side
  distances_of none none available = ok not_scaled
  distances_of stop target available =
      available >>= λ bars. ok (join_sides (scaled_side bars stop) (scaled_side bars target))

  pub distances : Contract A → (Timeframe → Result (List (Bar A))) → Result (Distances A)
  unfolding distances_of
  distances c available = distances_of c.stop_scaling c.target_scaling (available c.execution)

  abbrev pub as_value : Option A → Option (Value A)
  as_value none = none
  as_value (some v) = some (number v)

  -- The result of `decide`, as the kernel reads it.
  pub evaluation_of : Bool → Distances A → Evaluation A
  evaluation_of truth not_scaled = record {
    eligible = truth;
    stop_distance = none;
    target_distance = none;
  }
  evaluation_of truth insufficient = record {
    eligible = false;
    stop_distance = none;
    target_distance = none;
  }
  evaluation_of truth (scaled stop target) = record {
    eligible = truth;
    stop_distance = as_value stop;
    target_distance = as_value target;
  }

  module _ (pstdev : List A → A) where
    -- `decide`, over a source of completed candles.
    pub decide_on : Contract A → (Timeframe → Result (List (Bar A))) → Bar A → Result (Evaluation A)
    unfolding distances in_session evaluation_of
    decide_on c available signal = do
      context ← rules_truth pstdev c.execution available c.context_rules
      setup ← rules_truth pstdev c.execution available c.setup_rules
      trigger ← rules_truth pstdev c.execution available c.trigger_rules
      let truth = all_of (λ t. t) (context ++ (setup ++ trigger)) && in_session c signal
      scaling ← distances c available
      ok (evaluation_of truth scaling)

-- `bisect_right` finds where the close times of the sorted candles pass the decision's.
pub completed : {A : Type 0} → Timeframe → ℕ → List (Bar A) → List (Bar A)
unfolding close_time
completed t decision_close [] = []
completed t decision_close (b ∷ bars) =
    if leb (close_time t b) decision_close then b ∷ completed t decision_close bars else []

abbrev pub unavailable : {B : Type 0} → Result B
unavailable = raised "CAPABILITY_NOT_SUPPORTED: registered context asset is unavailable"

module _ {A : Type 0} ⦃n : Number A⦄ (pstdev : List A → A) where
  -- `_available` of the batch evaluator, whose candles are sorted.
  pub batch_available :
      Contract A → Dict Timeframe (List (Bar A)) → Bar A → Timeframe → Result (List (Bar A))
  unfolding completed
  batch_available c bars signal t = elim (get t bars) [
    | none ↦ unavailable
    | some items ↦ ok (completed t (close_time c.execution signal) items)
  ]

  pub decide : Contract A → Dict Timeframe (List (Bar A)) → Bar A → Bar A → Result (Evaluation A)
  unfolding decide_on batch_available
  decide c bars previous signal = decide_on pstdev c (batch_available c bars signal) signal

-- The streaming evaluator. A source is the candles that are not yet consumed: a pending candle is its
-- first, and an exhausted source is empty.
pub record Stream (A : Type 0) : Type 0 where
  pub lookbacks : Dict Timeframe ℕ
  pub histories : Dict Timeframe (List (Bar A))
  pub sources : Dict Timeframe (List (Bar A))
  pub split_start : Option ℕ

-- `deque(maxlen=count + 1).append(candle)`
abbrev pub push : {B : Type 0} → ℕ → B → List B → List B
push count b history = suffix (suc count) (history ++ (b ∷ []))

-- `self.histories[timeframe].append(candle)`
pub append_candle : {A : Type 0} → Timeframe → Bar A → Stream A → Result (Stream A)
append_candle t b s = elim (get t s.lookbacks) [
  | none ↦ raised "KeyError"
  | some count ↦
      let history : List (Bar _) = elim (get t s.histories) [ none ↦ [] | some h ↦ h ] in
      ok (record s { histories = put t (push count b history) s.histories })
]

-- The sources of the other timeframes than the execution timeframe.
pub context_sources : {B : Type 0} → Timeframe → Dict Timeframe B → Dict Timeframe B
context_sources execution [] = []
context_sources execution ((t, bars) ∷ rest) =
    let others = context_sources execution rest in
    if timeframe_key.same t execution then others else (t, bars) ∷ others

pub new_stream : {A : Type 0} → Contract A → Dict Timeframe (List (Bar A)) → Stream A
unfolding required_lookbacks context_sources
new_stream c sources =
    let lookbacks = required_lookbacks c in
    record {
      lookbacks = lookbacks;
      histories = map (λ item. (item.0, [])) lookbacks;
      sources = context_sources c.execution sources;
      split_start = none;
    }

pub observe_execution_bar : {A : Type 0} → Contract A → Bar A → Stream A → Result (Stream A)
unfolding append_candle
observe_execution_bar c candle s =
    let start : ℕ = elim s.split_start [ none ↦ candle.timestamp | some t ↦ t ] in
    append_candle c.execution candle (record s { split_start = some start })

-- The inner loop of `_advance_context` over one source.
pub advance_source : {A : Type 0} → Timeframe → ℕ → ℕ → List (Bar A) → Stream A → Result (Stream A)
unfolding append_candle close_time
advance_source t decision_close start [] s = ok (record s { sources = put t [] s.sources })
advance_source t decision_close start (candle ∷ rest) s =
    let later = λ (s' : Stream _). advance_source t decision_close start rest s' in
    if ltb decision_close (close_time t candle)
    then ok (record s { sources = put t (candle ∷ rest) s.sources })
    else if ltb start (close_time t candle)
    then append_candle t candle s >>= later
    else later s

pub advance_sources :
    {A : Type 0} → ℕ → ℕ → Dict Timeframe (List (Bar A)) → Stream A → Result (Stream A)
unfolding advance_source
advance_sources decision_close start [] s = ok s
advance_sources decision_close start ((t, source) ∷ rest) s =
    advance_source t decision_close start source s >>= advance_sources decision_close start rest

pub advance_context : {A : Type 0} → Contract A → Bar A → Stream A → Result (Stream A)
unfolding advance_sources close_time
advance_context c signal s = elim s.split_start [
  | none ↦ raised "completed-candle evaluator has not observed the split start"
  | some start ↦ advance_sources (close_time c.execution signal) start s.sources s
]

abbrev pub keep_completed : {A : Type 0} → Timeframe → ℕ → List (Bar A) → List (Bar A)
keep_completed t decision_close [] = []
keep_completed t decision_close (b ∷ bars) =
    if leb (close_time t b) decision_close
    then b ∷ keep_completed t decision_close bars
    else keep_completed t decision_close bars

module _ {A : Type 0} ⦃n : Number A⦄ (pstdev : List A → A) where
  pub stream_available : Contract A → Stream A → Bar A → Timeframe → Result (List (Bar A))
  stream_available c s signal t = elim (get t s.histories) [
    | none ↦ unavailable
    | some history ↦ ok (keep_completed t (close_time c.execution signal) history)
  ]

  pub stream_decide : Contract A → Bar A → Bar A → Stream A → Result (Evaluation A × Stream A)
  unfolding advance_context decide_on stream_available
  stream_decide c previous signal s = do
    s' ← advance_context c signal s
    evaluation ← decide_on pstdev c (stream_available c s' signal) signal
    ok (evaluation, s')
