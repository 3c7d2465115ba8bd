-- ===== src/Metrics/Examples.antt =====
-- A ledger of three trades, with prices in whole cents.
use arkana.Base.{
  ℕ, ◌≡◌, true, arith, List, [], ◌∷◌, none, some, String, Dict, get, string_key, ℤ, pos, negsuc,
  int_number, ℤ-IsOrdered, foldl,
}
use arkana.Kernel.{Trade, Reason, long, stop_loss, take_profit}
use arkana.Metrics.{
  metrics, oos_metrics, add_oos_all, new_oos_accumulator, add, new_trade_accumulator,
  totals_metrics, year_ledgers, Totals,
}
use arkana.Metrics.Agreement.{one_by_one, oos_metrics-eq-metrics}
use arkana.Metrics.Years.{add-metrics, map_option, ledger_metrics}

abbrev trade : ℕ → ℤ → Reason → Trade ℤ
trade t pnl reason = record {
  signal_timestamp = t;
  entry_timestamp = t;
  exit_timestamp = t;
  side = long;
  entry_price = pos 100;
  stop_price = pos 90;
  target_price = pos 110;
  exit_price = pos 110;
  exit_reason = reason;
  gross_pnl_price = pnl;
  net_pnl_price = pnl;
  mae_price = negsuc 1;
  mfe_price = pos 12;
  rule_evaluation = none;
}

abbrev ledger : List (Trade ℤ)
ledger =
    trade 10 (pos 10) take_profit
    ∷ trade 20 (negsuc 9) stop_loss
    ∷ trade 30 (pos 8) take_profit
    ∷ []

abbrev year_of : ℕ → String
year_of t = "2024"

oos_metrics-eq-metrics_example :
    let reported = oos_metrics (add_oos_all ledger new_oos_accumulator) in
    (reported ≡ metrics ⦃n = one_by_one int_number⦄ ledger)
    × (reported.trade_count ≡ (metrics ledger).trade_count)
    × (reported.win_rate ≡ (metrics ledger).win_rate)
    × (reported.max_drawdown_price ≡ (metrics ledger).max_drawdown_price)
    × (reported.max_consecutive_losses ≡ (metrics ledger).max_consecutive_losses)
oos_metrics-eq-metrics_example =
    oos_metrics-eq-metrics {A = ℤ} ⦃n = int_number⦄ (λ a. ground arith) ℤ-IsOrdered ledger

add-metrics_example :
    let acc = foldl (add year_of) (new_trade_accumulator true) ledger in
    (totals_metrics acc.totals ≡ ledger_metrics ledger)
    × ((yearly : Dict String (Totals ℤ)) × (acc.yearly ≡ some yearly)
        × ((year : String)
            → map_option totals_metrics (get year yearly)
              ≡ map_option ledger_metrics (get year (year_ledgers year_of ledger []))))
add-metrics_example = add-metrics year_of ledger
