-- ===== src/Gate.antt =====
-- The historical gate of services/research/app/oos_validation.py: the breakdown of a split's profit by
-- year and market regime, its concentration, and the decision. The policy's numbers are an argument.
pub mod View
pub mod Merged
pub mod Spread
pub mod Decision
mod Examples
use arkana.Base.{
  ℕ, zero, suc, ◌+◌, ◌-◌, Bool, true, false, not, ◌&&◌, ◌||◌, Option, none, some, List, [], ◌∷◌,
  ◌++◌, map, Result, ok, raised, leb, ltb, length, Number, nought, abs_of, all_of, if◌then◌else◌,
  String, Dict, get, put, string_key, codes, codes_le,
}
use arkana.Market.{Bar}
use arkana.Kernel.{Config, Trade}
use arkana.Indicators.{suffix}
use arkana.Metrics.{GateInputs}

pub record Thresholds (A : Type 0) : Type 0 where
  pub volatility_low : A
  pub volatility_high : A
  pub trend_efficiency : A

-- `_BreakdownAccumulator`
pub record Breakdown (A : Type 0) : Type 0 where
  pub thresholds : Option (Thresholds A)
  pub closes : List A
  pub current_regime : Option String
  pub pre_candle_regime : Option String
  pub entry_regime : Option String
  pub year_net_pnl : Dict String A
  pub regime_net_pnl : Dict String A

abbrev pub regime_lookback : ℕ
regime_lookback = 20

pub data Volatility : Type 0 where
  low medium high : Volatility

-- f"{structure}+{volatility}", `true` for "TRENDING"
abbrev pub regime_label : Bool → Volatility → String
regime_label true low = "TRENDING+LOW"
regime_label true medium = "TRENDING+MEDIUM"
regime_label true high = "TRENDING+HIGH"
regime_label false low = "RANGING+LOW"
regime_label false medium = "RANGING+MEDIUM"
regime_label false high = "RANGING+HIGH"

abbrev pub or_warmup : Option String → String
or_warmup none = "UNCLASSIFIED_WARMUP"
or_warmup (some regime) = regime

module _ {A : Type 0} ⦃n : Number A⦄ where
  -- `abs(closes[index] - closes[index - 1])` for the indices from 1 on
  abbrev pub moves : List A → List A
  moves [] = []
  moves (a ∷ []) = []
  moves (a ∷ b ∷ rest) = abs_of (n.sub b a) ∷ moves (b ∷ rest)

  abbrev pub last_of : A → List A → A
  last_of a [] = a
  last_of a (b ∷ rest) = last_of b rest

  pub efficiency_of : List A → A
  efficiency_of [] = nought
  efficiency_of (a ∷ rest) =
      let path = n.sum (moves (a ∷ rest)) in
      if n.eq path nought then nought else n.div (abs_of (n.sub (last_of a rest) a)) path

  pub regime_of : Thresholds A → List A → Bar A → String
  unfolding efficiency_of
  regime_of t closes candle =
      let candle_range = n.sub candle.high candle.low in
      let volatility =
        if n.le candle_range t.volatility_low
        then low
        else if n.le t.volatility_high candle_range
        then high
        else medium in
      regime_label (n.le t.trend_efficiency (efficiency_of closes)) volatility

  -- The regime that a candle leaves, of the closes with its own.
  pub next_regime : Option (Thresholds A) → List A → Bar A → Option String
  unfolding regime_of
  next_regime none closes candle = none
  next_regime (some t) closes candle =
      if ltb (length closes) (regime_lookback + 1) then none else some (regime_of t closes candle)

  unfoldable pub on_candle : Bar A → Breakdown A → Breakdown A
  unfolding next_regime
  on_candle candle b =
      let closes = suffix (regime_lookback + 1) (b.closes ++ (candle.close ∷ [])) in
      record b {
        pre_candle_regime = b.current_regime;
        closes = closes;
        current_regime = next_regime b.thresholds closes candle;
      }

  unfoldable pub on_entry : Bar A → Breakdown A → Breakdown A
  on_entry candle b = record b { entry_regime = some (or_warmup b.pre_candle_regime) }

  -- `d.get(key, 0.0)`
  abbrev pub value_or_nought : Option A → A
  value_or_nought none = nought
  value_or_nought (some v) = v

  -- `d[key] = d.get(key, 0.0) + pnl`
  abbrev pub add_to : String → A → Dict String A → Dict String A
  add_to key pnl d = put key (n.add (value_or_nought (get key d)) pnl) d

  pub on_trade : (ℕ → String) → Trade A → Breakdown A → Breakdown A
  on_trade year_of trade b =
      let pnl = trade.net_pnl_price in
      record b {
        year_net_pnl = add_to (year_of trade.entry_timestamp) pnl b.year_net_pnl;
        regime_net_pnl = add_to (or_warmup b.entry_regime) pnl b.regime_net_pnl;
        entry_regime = none;
      }

  -- The loop of `_merge_buckets` over the buckets of one split.
  pub merge_into : Dict String A → Dict String A → Dict String A
  merge_into [] merged = merged
  merge_into ((bucket, pnl) ∷ rest) merged = merge_into rest (add_to bucket pnl merged)

  -- `sorted(merged.items())`, whose names are distinct.
  pub insert_bucket : String × A → Dict String A → Dict String A
  insert_bucket item [] = item ∷ []
  insert_bucket item (other ∷ rest) = elim (codes_le (codes item.0) (codes other.0)) [
    | true ↦ item ∷ other ∷ rest
    | false ↦ other ∷ insert_bucket item rest
  ]

  pub sort_buckets : Dict String A → Dict String A
  unfolding insert_bucket
  sort_buckets [] = []
  sort_buckets (item ∷ rest) = insert_bucket item (sort_buckets rest)

  -- `_merge_buckets`, over the buckets of "holdout" and "final_oos".
  pub merge_buckets : Dict String A → Dict String A → Dict String A
  unfolding merge_into sort_buckets
  merge_buckets holdout final_oos =
      map (λ item. (item.0, n.round 6 item.1))
        (sort_buckets (merge_into final_oos (merge_into holdout [])))

pub data Status : Type 0 where
  pass fail fail_no_positive_pnl insufficient_evidence : Status

abbrev pub passes : Status → Bool
passes pass = true
passes _ = false

pub record Policy (A : Type 0) : Type 0 where
  pub minimum_trades : ℕ
  pub profit_factor : A
  pub maximum_concentration : A

-- What the gate reads of one split under the baseline costs.
pub record SplitEvidence (A : Type 0) : Type 0 where
  pub trade_count : ℕ
  pub net_pnl_price : A
  pub gate_inputs : GateInputs A
  pub year_net_pnl : Dict String A
  pub regime_net_pnl : Dict String A

pub record GateEvidence (A : Type 0) : Type 0 where
  pub holdout : SplitEvidence A
  pub final_oos : SplitEvidence A
  pub adverse_final_oos : A
  pub regime_available : Bool

pub record Checks : Type 0 where
  pub minimum_trades : Status
  pub regime_calibration : Status
  pub positive_net_pnl_after_costs : Status
  pub profit_factor : Status
  pub adverse_final_oos_nonnegative : Status
  pub year_pnl_concentration : Status
  pub regime_pnl_concentration : Status

abbrev pub statuses : Checks → List Status
statuses c =
    c.minimum_trades ∷ c.regime_calibration ∷ c.positive_net_pnl_after_costs ∷ c.profit_factor
    ∷ c.adverse_final_oos_nonnegative ∷ c.year_pnl_concentration ∷ c.regime_pnl_concentration ∷ []

abbrev pub pass_or : Status → Bool → Status
pass_or other true = pass
pass_or other false = other

module _ {A : Type 0} ⦃n : Number A⦄ where
  abbrev pub positive_of : List A → List A
  positive_of [] = []
  positive_of (pnl ∷ rest) = if n.lt nought pnl then pnl ∷ positive_of rest else positive_of rest

  -- Python's `max` of a list, whose first item is given.
  abbrev pub greatest : A → List A → A
  greatest a [] = a
  greatest a (b ∷ rest) = greatest (if n.lt a b then b else a) rest

  -- `max(raw_shares.values())` against the maximum.
  pub shares_status : A → List A → Status × Option A
  shares_status maximum [] = (fail_no_positive_pnl, none)
  shares_status maximum (share ∷ shares) =
      let observed = greatest share shares in (pass_or fail (n.le observed maximum), some observed)

  pub positive_status : A → List A → Status × Option A
  unfolding shares_status
  positive_status maximum positive =
      let denominator = n.sum positive in
      if n.le denominator nought
      then (fail_no_positive_pnl, none)
      else shares_status maximum (map (λ pnl. n.div pnl denominator) positive)

  -- `_concentration`: its status and what it observed.
  pub concentration : Dict String A → A → Status × Option A
  unfolding positive_status
  concentration buckets maximum =
      positive_status maximum (positive_of (map (λ item. item.1) buckets))

  -- The first component of `profit_factor_check`; `Decimal(str(x))` is `x` here.
  pub profit_factor_check : A → GateInputs A → Bool
  profit_factor_check threshold g =
      if n.eq g.gross_loss_price nought
      then n.lt nought g.gross_profit_price
      else n.lt (n.mul threshold g.gross_loss_price) g.gross_profit_price

  pub sufficient_trades : Policy A → GateEvidence A → Bool
  sufficient_trades p e =
      leb p.minimum_trades e.holdout.trade_count && leb p.minimum_trades e.final_oos.trade_count

  pub checks_of : Policy A → GateEvidence A → Checks
  unfolding concentration profit_factor_check sufficient_trades merge_buckets
  checks_of p e = record {
    minimum_trades = pass_or insufficient_evidence (sufficient_trades p e);
    regime_calibration = pass_or insufficient_evidence e.regime_available;
    positive_net_pnl_after_costs =
        pass_or fail (n.lt nought e.holdout.net_pnl_price && n.lt nought e.final_oos.net_pnl_price);
    profit_factor = pass_or fail (
        profit_factor_check p.profit_factor e.holdout.gate_inputs
        && profit_factor_check p.profit_factor e.final_oos.gate_inputs);
    adverse_final_oos_nonnegative = pass_or fail (n.le nought e.adverse_final_oos);
    year_pnl_concentration =
        (concentration (merge_buckets e.holdout.year_net_pnl e.final_oos.year_net_pnl)
          p.maximum_concentration).0;
    regime_pnl_concentration =
        (concentration (merge_buckets e.holdout.regime_net_pnl e.final_oos.regime_net_pnl)
          p.maximum_concentration).0;
  }

  -- The "decision" of `evaluate_gate`.
  pub evaluate_gate : Policy A → GateEvidence A → Status
  unfolding checks_of
  evaluate_gate p e =
      if not (sufficient_trades p e) || not e.regime_available
      then insufficient_evidence
      else pass_or fail (all_of passes (statuses (checks_of p e)))

  -- `scenario_config`, over a multiplier of the spread and one of the commission.
  pub scenario_config : Config A → A → A → Result (Config A)
  scenario_config config spread_multiplier commission_multiplier =
      if n.lt spread_multiplier nought || n.lt commission_multiplier nought
      then raised "cost multipliers must be non-negative"
      else ok (record config {
        spread_price = n.round 12 (n.mul config.spread_price spread_multiplier);
        commission_price = n.round 12 (n.mul config.commission_price commission_multiplier);
      })

-- The columns of a strategy version that `apply_validation_lineage` writes.
pub record Lineage : Type 0 where
  pub is_validated : Bool
  pub validation_evidence_id : Option String
  pub validated_at : Option ℕ

pub apply_validation_lineage : Lineage → String → ℕ → Status → Bool × Lineage
apply_validation_lineage strategy evidence_id now pass = (
  true,
  record {
    is_validated = true;
    validation_evidence_id = some evidence_id;
    validated_at = some now;
  },
)
apply_validation_lineage strategy evidence_id now _ = (false, strategy)
