-- ===== src/Evaluator.antt =====
-- `CompletedCandleEvaluator` of services/research/app/completed_candle_evaluator.py: the rules of a
-- strategy contract over completed candles, and how many candles each rule looks back. The evidence
-- that a rule's payload carries beside its truth is left out. A contract is one that
-- strategy_capabilities.py accepts, so its blocks are a data type.
pub mod Lookbacks
pub mod Decide
mod Examples
use arkana.Base.{
  ℕ, zero, suc, ◌+◌, ◌-◌, ◌*◌, ◌/◌, ◌%◌, Bool, true, false, not, ◌&&◌, Option, none, some, List, [],
  ◌∷◌, map, Result, ok, raised, ◌>>=◌, ltb, leb, ◌==◌, length, Number, nought, max_of, min_of,
  fmean, any_of, all_of, if◌then◌else◌, Dict, get, put, Key, ◌≡◌, ◌↔◌, refl, arith, IsOrdered,
}
use arkana.Market.{Bar}
use arkana.Kernel.{Evaluation, Value, number}
use arkana.Indicators.{
  Method, suffix, warmup_bars, moving_average, relative_strength_index, bollinger_bands, Bands,
  average_true_range, mean,
}

pub data Timeframe : Type 0 where
  m1 m5 m15 m30 h1 h4 : Timeframe

abbrev pub minutes : Timeframe → ℕ
minutes m1 = 1
minutes m5 = 5
minutes m15 = 15
minutes m30 = 30
minutes h1 = 60
minutes h4 = 240

pub data Direction : Type 0 where
  bullish bearish : Direction

pub data Relation : Type 0 where
  above below : Relation

pub data Band : Type 0 where
  upper middle lower : Band

-- A candle block without a direction has the legacy shape, bearish and then bullish.
pub data Block (A : Type 0) : Type 0 where
  always : Block A
  candle_direction : Option Direction → Block A
  two_bar_reversal : Direction → Block A
  sma_relation ema_relation : (fast_period slow_period : ℕ) → Relation → Block A
  price_vs_ma : Method → (period : ℕ) → Relation → Block A
  rsi_threshold : (period : ℕ) → Relation → (threshold : A) → Block A
  bollinger_relation : (period : ℕ) → (standard_deviations : A) → Band → Relation → Block A
  minimum_range : (lookback : ℕ) → (minimum_distance : A) → Block A

-- A rule, and the list of the children of one.
mutual
  pub data Rule (A : Type 0) : Type 0 where
    block : Option Timeframe → Block A → Rule A
    all_rules any_rules : Rules A → Rule A
    not_rule : Rule A → Rule A

  pub data Rules (A : Type 0) : Type 0 where
    no_rules : Rules A
    more_rules : Rule A → Rules A → Rules A

abbrev pub timeframe_of : Timeframe → Option Timeframe → Timeframe
timeframe_of execution none = execution
timeframe_of execution (some t) = t

-- `available[-2]` and `available[-1]`, where they are there.
abbrev pub last_two : {B : Type 0} → List B → Option (B × B)
last_two bars = elim (suffix 2 bars) [
  | [] ↦ none
  | a ∷ rest ↦ elim rest [ [] ↦ none | b ∷ _ ↦ some (a, b) ]
]

abbrev pub last_one : {B : Type 0} → List B → Option B
last_one xs = elim (suffix 1 xs) [ [] ↦ none | x ∷ _ ↦ some x ]

module _ {A : Type 0} ⦃n : Number A⦄ where
  abbrev is_bullish : Bar A → Bool
  is_bullish b = n.lt b.open_price b.close

  abbrev is_bearish : Bar A → Bool
  is_bearish b = n.lt b.close b.open_price

  abbrev pub relates : Relation → A → A → Bool
  relates above a b = n.lt b a
  relates below a b = n.lt a b

  abbrev pub points : Direction → Bar A → Bool
  points bullish b = is_bullish b
  points bearish b = is_bearish b

  abbrev pub closes_of : List (Bar A) → List A
  closes_of bars = map (λ b. b.close) bars

  pub candle_truth : Option Direction → List (Bar A) → Bool
  candle_truth (some d) available = elim (last_one available) [ none ↦ false | some b ↦ points d b ]
  candle_truth none available = elim (last_two available) [
    | none ↦ false
    | some (a, b) ↦ is_bearish a && is_bullish b
  ]

  pub reversal_truth : Direction → List (Bar A) → Bool
  reversal_truth bullish available = elim (last_two available) [
    | none ↦ false
    | some (a, b) ↦ is_bearish a && is_bullish b
  ]
  reversal_truth bearish available = elim (last_two available) [
    | none ↦ false
    | some (a, b) ↦ is_bullish a && is_bearish b
  ]

  pub sma_truth : ℕ → ℕ → Relation → List (Bar A) → Bool
  sma_truth fast_period slow_period relation available =
      let closes = closes_of available in
      if ltb (length available) slow_period
      then false
      else relates relation (mean (suffix fast_period closes)) (mean (suffix slow_period closes))

  -- Two numbers that may be missing: "Insufficient context is false, never a guess".
  abbrev pub both_relate : Relation → Option A → Option A → Bool
  both_relate relation (some a) (some b) = relates relation a b
  both_relate relation _ _ = false

  abbrev pub band_of : Band → Bands A → A
  band_of upper b = b.upper
  band_of middle b = b.middle
  band_of lower b = b.lower

  -- The last close against a moving average, and against a band, either of which may be missing.
  pub price_truth : Relation → Option A → Option A → Bool
  price_truth relation none price = false
  price_truth relation (some average) price = both_relate relation price (some average)

  pub band_truth : Relation → Band → Option (Bands A) → Option A → Bool
  band_truth relation band none price = false
  band_truth relation band (some bands) price =
      both_relate relation price (some (band_of band bands))

  -- Python's `max` and `min` over the highs and the lows of a window.
  pub highest : A → List (Bar A) → A
  highest a [] = a
  highest a (b ∷ bars) = highest (max_of a b.high) bars

  pub lowest : A → List (Bar A) → A
  lowest a [] = a
  lowest a (b ∷ bars) = lowest (min_of a b.low) bars

  abbrev pub span_reaches : A → List (Bar A) → Bool
  span_reaches minimum [] = false
  span_reaches minimum (b ∷ bars) = n.le minimum (n.sub (highest b.high bars) (lowest b.low bars))

  module _ (pstdev : List A → A) where
    -- The "truth" of one block over the completed candles of its timeframe.
    pub block_truth : Block A → List (Bar A) → Bool
    unfolding candle_truth reversal_truth sma_truth price_truth band_truth highest lowest
    block_truth always available = true
    block_truth (candle_direction d) available = candle_truth d available
    block_truth (two_bar_reversal d) available = reversal_truth d available
    block_truth (sma_relation fast slow relation) available = sma_truth fast slow relation available
    block_truth (ema_relation fast slow relation) available =
        let closes = closes_of available in
        both_relate relation (moving_average closes fast Method.ema)
          (moving_average closes slow Method.ema)
    block_truth (price_vs_ma method period relation) available =
        let closes = closes_of available in
        price_truth relation (moving_average closes period method) (last_one closes)
    block_truth (rsi_threshold period relation threshold) available =
        both_relate relation (relative_strength_index (closes_of available) period) (some threshold)
    block_truth (bollinger_relation period deviations band relation) available =
        let closes = closes_of available in
        band_truth relation band (bollinger_bands pstdev closes period deviations) (last_one closes)
    block_truth (minimum_range lookback minimum_distance) available =
        if ltb (length available) lookback
        then false
        else span_reaches minimum_distance (suffix lookback available)

    module _ (execution : Timeframe) (available : Timeframe → Result (List (Bar A))) where
      -- `_rule`: all children are evaluated before `all` or `any` reads them.
      mutual
        unfolding block_truth

        pub rule_truth : Rule A → Result Bool
        rule_truth (block t b) =
            available (timeframe_of execution t) >>= λ bars. ok (block_truth b bars)
        rule_truth (all_rules children) =
            rules_truth children >>= λ truths. ok (all_of (λ t. t) truths)
        rule_truth (any_rules children) =
            rules_truth children >>= λ truths. ok (any_of (λ t. t) truths)
        rule_truth (not_rule child) = rule_truth child >>= λ t. ok (not t)

        pub rules_truth : Rules A → Result (List Bool)
        rules_truth no_rules = ok []
        rules_truth (more_rules rule rest) =
            rule_truth rule >>= λ t. rules_truth rest >>= λ ts. ok (t ∷ ts)
