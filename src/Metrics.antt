-- ===== src/Metrics.antt =====
-- What a ledger is summarised to: `_metrics` and `_yearly_breakdown` of
-- services/research/app/backtesting.py, and the two accumulators that do not hold the ledger,
-- `_TradeAccumulator` there and `_OosMetricAccumulator` of services/research/app/oos_validation.py.
pub mod Agreement
pub mod Years
mod Examples
use arkana.Base.{
  ℕ, zero, suc, ◌+◌, ◌-◌, Bool, true, false, not, Option, none, some, List, [], ◌∷◌, ◌++◌, map, ltb,
  ◌==◌, length, Number, nought, max_of, min_of, abs_of, if◌then◌else◌, String, Dict, get, put,
  string_key,
}
use arkana.Kernel.{Trade, Reason, take_profit, stop_loss, ambiguous_stop_first, data_end}

-- A profit factor is a number, "INFINITE" or `None`.
pub data Factor (A : Type 0) : Type 0 where
  finite : A → Factor A
  infinite not_defined : Factor A

pub record Metrics (A : Type 0) : Type 0 where
  pub trade_count : ℕ
  pub net_pnl_price : A
  pub win_rate : Option A
  pub profit_factor : Factor A
  pub average_win_price : Option A
  pub average_loss_price : Option A
  pub max_drawdown_price : A
  pub max_consecutive_losses : ℕ
  pub average_mae_price : Option A
  pub average_mfe_price : Option A

-- The variables of the loop over the values.
pub record Curve (A : Type 0) : Type 0 where
  pub equity : A
  pub peak : A
  pub max_drawdown : A
  pub consecutive : ℕ
  pub max_consecutive : ℕ

abbrev pub max_ℕ : ℕ → ℕ → ℕ
max_ℕ a b = if ltb a b then b else a

module _ {A : Type 0} ⦃n : Number A⦄ where
  -- `if x:` of a number
  abbrev pub is_true : A → Bool
  is_true a = not (n.eq a nought)

  abbrev pub is_win : A → Bool
  is_win v = n.lt nought v

  abbrev pub is_loss : A → Bool
  is_loss v = n.le v nought

  abbrev pub keep : (A → Bool) → List A → List A
  keep test [] = []
  keep test (v ∷ values) = if test v then v ∷ keep test values else keep test values

  -- `round(total / count, 6) if count else None`
  abbrev pub average : A → ℕ → Option A
  average total zero = none
  average total (suc count) = some (n.round 6 (n.div total (n.of_ℕ (suc count))))

  abbrev pub flat : Curve A
  flat = record {
    equity = nought;
    peak = nought;
    max_drawdown = nought;
    consecutive = 0;
    max_consecutive = 0;
  }

  pub curve_step : Curve A → A → Curve A
  curve_step k value =
      let equity = n.add k.equity value in
      let peak = max_of k.peak equity in
      let consecutive = if is_loss value then k.consecutive + 1 else 0 in
      record {
        equity = equity;
        peak = peak;
        max_drawdown = min_of k.max_drawdown (n.sub equity peak);
        consecutive = consecutive;
        max_consecutive = max_ℕ k.max_consecutive consecutive;
      }

  pub curve : List A → Curve A → Curve A
  unfolding curve_step
  curve [] k = k
  curve (v ∷ values) k = curve values (curve_step k v)

  -- Both `_metrics` and `_TradeAccumulator.metrics` compute this, once the excursions are summed.
  pub summary : List A → A → A → Metrics A
  unfolding curve
  summary pnl mae mfe =
      let winners = keep is_win pnl in
      let losses = keep is_loss pnl in
      let gross_win = n.sum winners in
      let gross_loss = abs_of (n.sum losses) in
      let k = curve pnl flat in
      record {
        trade_count = length pnl;
        net_pnl_price = n.round 6 (n.sum pnl);
        win_rate = average (n.of_ℕ (length winners)) (length pnl);
        profit_factor =
            if is_true gross_loss
            then finite (n.round 6 (n.div gross_win gross_loss))
            else if not (is_true gross_win)
            then not_defined
            else infinite;
        average_win_price = average gross_win (length winners);
        average_loss_price = average (n.sum losses) (length losses);
        max_drawdown_price = n.round 6 k.max_drawdown;
        max_consecutive_losses = k.max_consecutive;
        average_mae_price = average mae (length pnl);
        average_mfe_price = average mfe (length pnl);
      }

  pub metrics : List (Trade A) → Metrics A
  unfolding summary
  metrics trades =
      summary (map (λ t. t.net_pnl_price) trades) (n.sum (map (λ t. t.mae_price) trades))
        (n.sum (map (λ t. t.mfe_price) trades))

-- The fields of `_TradeAccumulator` but the yearly ones.
pub record Totals (A : Type 0) : Type 0 where
  pub values : List A
  pub mae : A
  pub mfe : A
  pub tp : ℕ
  pub sl : ℕ
  pub stop_first : ℕ
  pub data_end : ℕ

pub record TradeAccumulator (A : Type 0) : Type 0 where
  pub totals : Totals A
  pub yearly : Option (Dict String (Totals A))

-- `trade["exit_reason"] == ...`, counted
abbrev pub is_reason : Reason → Reason → ℕ
is_reason ambiguous_stop_first ambiguous_stop_first = 1
is_reason stop_loss stop_loss = 1
is_reason take_profit take_profit = 1
is_reason data_end data_end = 1
is_reason _ _ = 0

module _ {A : Type 0} ⦃n : Number A⦄ where
  abbrev pub no_totals : Totals A
  no_totals = record {
    values = [];
    mae = nought;
    mfe = nought;
    tp = 0;
    sl = 0;
    stop_first = 0;
    data_end = 0;
  }

  pub add_totals : Totals A → Trade A → Totals A
  add_totals t trade = record {
    values = t.values ++ (trade.net_pnl_price ∷ []);
    mae = n.add t.mae trade.mae_price;
    mfe = n.add t.mfe trade.mfe_price;
    tp = t.tp + is_reason trade.exit_reason take_profit;
    sl =
        t.sl
        + (is_reason trade.exit_reason stop_loss
            + is_reason trade.exit_reason ambiguous_stop_first);
    stop_first = t.stop_first + is_reason trade.exit_reason ambiguous_stop_first;
    data_end = t.data_end + is_reason trade.exit_reason Reason.data_end;
  }

  -- `self.yearly.setdefault(year, _TradeAccumulator(track_yearly=False)).add(trade)`
  pub add_yearly : String → Trade A → Dict String (Totals A) → Dict String (Totals A)
  unfolding add_totals
  add_yearly year trade yearly = elim (get year yearly) [
    | none ↦ put year (add_totals no_totals trade) yearly
    | some t ↦ put year (add_totals t trade) yearly
  ]

  abbrev pub new_trade_accumulator : Bool → TradeAccumulator A
  new_trade_accumulator track_yearly = record {
    totals = no_totals;
    yearly = if track_yearly then some [] else none;
  }

  -- `year_of` is `str(timestamp)[:4]`.
  pub add : (ℕ → String) → TradeAccumulator A → Trade A → TradeAccumulator A
  unfolding add_yearly
  add year_of acc trade = record {
    totals = add_totals acc.totals trade;
    yearly = elim acc.yearly [
      | none ↦ none
      | some yearly ↦ some (add_yearly (year_of trade.entry_timestamp) trade yearly)
    ];
  }

  pub totals_metrics : Totals A → Metrics A
  unfolding summary
  totals_metrics t = summary t.values t.mae t.mfe

  -- `_yearly_breakdown` before it sorts its years: the ledger of each year.
  pub year_ledgers :
      (ℕ → String) → List (Trade A) → Dict String (List (Trade A)) → Dict String (List (Trade A))
  year_ledgers year_of [] buckets = buckets
  year_ledgers year_of (trade ∷ rest) buckets =
      let year = year_of trade.entry_timestamp in
      year_ledgers year_of rest (elim (get year buckets) [
        | none ↦ put year (trade ∷ []) buckets
        | some items ↦ put year (items ++ (trade ∷ [])) buckets
      ])

-- `_OosMetricAccumulator`
pub record OosAccumulator (A : Type 0) : Type 0 where
  pub count : ℕ
  pub winners : ℕ
  pub gross_win : A
  pub gross_loss : A
  pub equity : A
  pub peak : A
  pub max_drawdown : A
  pub consecutive_losses : ℕ
  pub max_consecutive_losses : ℕ
  pub mae : A
  pub mfe : A

pub record GateInputs (A : Type 0) : Type 0 where
  pub gross_profit_price : A
  pub gross_loss_price : A

module _ {A : Type 0} ⦃n : Number A⦄ where
  abbrev pub new_oos_accumulator : OosAccumulator A
  new_oos_accumulator = record {
    count = 0;
    winners = 0;
    gross_win = nought;
    gross_loss = nought;
    equity = nought;
    peak = nought;
    max_drawdown = nought;
    consecutive_losses = 0;
    max_consecutive_losses = 0;
    mae = nought;
    mfe = nought;
  }

  -- The branch on the sign of the value.
  pub count_pnl : Bool → A → OosAccumulator A → OosAccumulator A
  count_pnl true pnl o = record o {
    winners = o.winners + 1;
    gross_win = n.add o.gross_win pnl;
    consecutive_losses = 0;
  }
  count_pnl false pnl o = record o {
    gross_loss = n.add o.gross_loss pnl;
    consecutive_losses = o.consecutive_losses + 1;
    max_consecutive_losses = max_ℕ o.max_consecutive_losses (o.consecutive_losses + 1);
  }

  pub add_oos : OosAccumulator A → Trade A → OosAccumulator A
  unfolding count_pnl
  add_oos o trade =
      let pnl = trade.net_pnl_price in
      let o' = count_pnl (is_win pnl) pnl (record o { count = o.count + 1 }) in
      let equity = n.add o'.equity pnl in
      let peak = max_of o'.peak equity in
      record o' {
        equity = equity;
        peak = peak;
        max_drawdown = min_of o'.max_drawdown (n.sub equity peak);
        mae = n.add o'.mae trade.mae_price;
        mfe = n.add o'.mfe trade.mfe_price;
      }

  pub add_oos_all : List (Trade A) → OosAccumulator A → OosAccumulator A
  unfolding add_oos
  add_oos_all [] o = o
  add_oos_all (trade ∷ rest) o = add_oos_all rest (add_oos o trade)

  pub oos_metrics : OosAccumulator A → Metrics A
  oos_metrics o =
      let losses = o.count - o.winners in
      record {
        trade_count = o.count;
        net_pnl_price = n.round 6 o.equity;
        win_rate = average (n.of_ℕ o.winners) o.count;
        profit_factor =
            if is_true o.gross_loss
            then finite (n.round 6 (n.div o.gross_win (abs_of o.gross_loss)))
            else if not (is_true o.gross_win)
            then not_defined
            else infinite;
        average_win_price = average o.gross_win o.winners;
        average_loss_price = average o.gross_loss losses;
        max_drawdown_price = n.round 6 o.max_drawdown;
        max_consecutive_losses = o.max_consecutive_losses;
        average_mae_price = average o.mae o.count;
        average_mfe_price = average o.mfe o.count;
      }

  pub gate_inputs : OosAccumulator A → GateInputs A
  gate_inputs o = record {
    gross_profit_price = n.round 6 o.gross_win;
    gross_loss_price = n.round 6 (abs_of o.gross_loss);
  }
