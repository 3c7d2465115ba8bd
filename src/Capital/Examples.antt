-- ===== src/Capital/Examples.antt =====
-- A fractional-risk path over two trades, in whole cents; the second has no stop distance.
use arkana.Base.{
  ℕ, ◌+◌, ◌≡◌, refl, true, none, some, List, [], ◌∷◌, length, ℤ, pos, negsuc, int_number,
  ℤ-IsOrdered, ◌≼◌,
}
use arkana.Kernel.{Trade, long, take_profit}
use arkana.Capital.{
  Metadata, RiskAccumulator, Point, trade_closed, sizing_boundary, new_risk, new_account,
  observe_all, invalid_stop_risk_input,
}
use arkana.Capital.Curve.{IsPath, observe_all-IsRun}

abbrev trade : ℕ → ℤ → ℤ → Trade ℤ
trade t stop pnl = record {
  signal_timestamp = t;
  entry_timestamp = t;
  exit_timestamp = t;
  side = long;
  entry_price = pos 100;
  stop_price = stop;
  target_price = pos 110;
  exit_price = pos 110;
  exit_reason = take_profit;
  gross_pnl_price = pnl;
  net_pnl_price = pnl;
  mae_price = negsuc 1;
  mfe_price = pos 12;
  rule_evaluation = none;
}

abbrev metadata : Metadata ℤ
metadata = record {
  tick_size = pos 1;
  tick_value_profit = pos 1;
  tick_value_loss = pos 1;
  volume_min = pos 1;
  volume_max = pos 1000;
  volume_step = pos 1;
}

abbrev ledger : List (Trade ℤ)
ledger = trade 60 (pos 90) (pos 10) ∷ trade 120 (pos 100) (pos 5) ∷ []

abbrev fresh : RiskAccumulator ℤ
fresh = record {
  metadata = metadata;
  starting = pos 1000;
  risk_fraction = pos 1;
  compounding = true;
  commission_price = pos 0;
  account = new_account (pos 1000);
  source_count = 0;
  simulated_count = 0;
  point_sequence = 0;
  observed_price_pnl = pos 0;
  boundary = none;
  minimum_volume = none;
  maximum_volume = none;
}

abbrev stopped : RiskAccumulator ℤ
stopped = record {
  metadata = metadata;
  starting = pos 1000;
  risk_fraction = pos 1;
  compounding = true;
  commission_price = pos 0;
  account = record {
    balance = pos 2000;
    peak = pos 2000;
    maximum_drawdown = pos 0;
    gross_profit = pos 1000;
    gross_loss = pos 0;
    wins = 1;
    losses = 0;
  };
  source_count = 2;
  simulated_count = 1;
  point_sequence = 2;
  observed_price_pnl = pos 15;
  boundary = some invalid_stop_risk_input;
  minimum_volume = some (pos 100);
  maximum_volume = some (pos 100);
}

abbrev path : List Point
path = trade_closed 1 ∷ sizing_boundary 2 ∷ []

observe_all-IsRun_example :
    IsPath 0 path
    × (length path ≡ stopped.point_sequence)
    × (stopped.source_count ≡ length ledger)
    × (stopped.account.wins + stopped.account.losses ≡ stopped.simulated_count)
    × (stopped.account.balance ≼ stopped.account.peak)
unfolding new_risk observe_all
observe_all-IsRun_example =
    observe_all-IsRun ℤ-IsOrdered (λ a. a) (λ a. a) metadata (pos 1000) (pos 1) true (pos 0) ledger
      fresh stopped path refl refl
