-- ===== src/Capital/Constrained/Examples.antt =====
-- A constrained path over two trades, in whole cents; the second has no stop distance.
use arkana.Base.{
  ℕ, ◌+◌, ◌≡◌, refl, true, none, some, List, [], ◌∷◌, length, ℤ, pos, negsuc, int_number, put, get,
  string_key,
}
use arkana.Kernel.{Trade, long, take_profit}
use arkana.Capital.{Metadata}
use arkana.Capital.Constrained.{
  MarginMetadata, Sizing, fractional_risk, Accumulator, Outcome, trade_closed, trade_rejected,
  invalid_stop_risk_input, build_path,
}
use arkana.Capital.Constrained.Counts.{build_path-new_accumulator}

abbrev trade : ℕ → ℤ → ℤ → Trade ℤ
trade t stop pnl = record {
  signal_timestamp = t;
  entry_timestamp = t;
  exit_timestamp = t;
  side = long;
  entry_price = pos 100;
  stop_price = stop;
  target_price = pos 110;
  exit_price = pos 110;
  exit_reason = take_profit;
  gross_pnl_price = pnl;
  net_pnl_price = pnl;
  mae_price = negsuc 1;
  mfe_price = pos 12;
  rule_evaluation = none;
}

abbrev metadata : Metadata ℤ
metadata = record {
  tick_size = pos 1;
  tick_value_profit = pos 1;
  tick_value_loss = pos 1;
  volume_min = pos 1;
  volume_max = pos 1000;
  volume_step = pos 1;
}

abbrev ledger : List (Trade ℤ)
ledger = trade 60 (pos 90) (pos 10) ∷ trade 120 (pos 100) (pos 5) ∷ []

abbrev margin : MarginMetadata ℤ
margin = record {
  is_cfd = true;
  same_currency = true;
  margin_rate_buy_initial = pos 1;
  margin_rate_sell_initial = pos 1;
  contract_size = pos 1;
  margin_initial = pos 2;
}

abbrev sizing : Sizing ℤ
sizing = fractional_risk true (pos 1)

abbrev finished : Accumulator ℤ
finished = record {
  metadata = metadata;
  margin_metadata = margin;
  sizing = sizing;
  max_margin_fraction = pos 1;
  starting = pos 1000;
  commission_price = pos 0;
  account = record {
    balance = pos 2000;
    peak = pos 2000;
    maximum_drawdown = pos 0;
    gross_profit = pos 1000;
    gross_loss = pos 0;
    wins = 1;
    losses = 0;
  };
  source_count = 2;
  executed = 1;
  rejected = 1;
  observed_price_pnl = pos 15;
  rejections = ("INVALID_STOP_RISK_INPUT", 1) ∷ [];
  max_evaluated_margin = pos 200;
  max_executed_margin = pos 200;
  min_volume = some (pos 100);
  max_volume = some (pos 100);
}

abbrev outcomes : List Outcome
outcomes = trade_closed 1 ∷ trade_rejected 2 invalid_stop_risk_input ∷ []

build_path-new_accumulator_example :
    (length outcomes ≡ length ledger)
    × (finished.executed + finished.rejected ≡ length ledger)
    × (finished.source_count ≡ length ledger)
    × (finished.account.wins + finished.account.losses ≡ finished.executed)
unfolding build_path put get
build_path-new_accumulator_example =
    build_path-new_accumulator (λ a. a) (λ a. a) (λ a. a) metadata margin sizing (pos 1) (pos 1000)
      (pos 0) ledger outcomes finished refl
