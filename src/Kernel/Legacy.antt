-- ===== src/Kernel/Legacy.antt =====
-- `_simulate` and `_simulate_legacy` of services/research/app/backtesting.py: the kernel on one chunk
-- without callbacks, and the loop over an index that it replaced.
pub mod Parity
use arkana.Base.{
  ℕ, zero, suc, Bool, true, false, ◌&&◌, Option, none, some, List, [], ◌∷◌, ◌++◌, Result, length,
  Number, max_of, min_of,
}
use arkana.Market.{Bar}
use arkana.Kernel.{
  Callbacks, Config, Trade, Evaluation, Reason, long, ambiguous_stop_first, stop_loss, take_profit,
  data_end, simulate_kernel,
}

abbrev pub Decider : Type 0 → Type 0 → Type 0
Decider A D = Bar A → Bar A → D → Result (Option (Evaluation A) × D)

abbrev pub no_callbacks : {A D : Type 0} → Option (Decider A D) → Callbacks A D
no_callbacks decider = record {
  on_trade = none;
  on_candle = λ _ d. d;
  on_entry = λ _ d. d;
  on_signal = λ _ d. d;
  signal_decider = decider;
}

-- What the inner loop leaves: the candle at `exit_index`, the exit, the extremes, and the bars after
-- `exit_index`.
pub record Exit (A : Type 0) : Type 0 where
  pub exit_bar : Bar A
  pub exit_price : A
  pub reason : Reason
  pub max_high : A
  pub min_low : A
  pub rest : List (Bar A)

module _ {A : Type 0} ⦃n : Number A⦄ where
  unfoldable pub simulate :
      {D : Type 0}
      → List (Bar A)
      → Config A
      → Option (Decider A D)
      → D
      → Result (D × List (Trade A))
  unfolding simulate_kernel
  simulate bars c decider d = simulate_kernel (no_callbacks decider) c (bars ∷ []) d

  -- `for cursor in range(index + 1, len(bars))`, over the bars from `cursor` on; `last` is the bar
  -- before them, which is `bars[-1]` where the loop runs out.
  pub scan : A → A → A → A → Bar A → List (Bar A) → Exit A
  scan stop target max_high min_low last [] = record {
    exit_bar = last;
    exit_price = last.close;
    reason = data_end;
    max_high = max_high;
    min_low = min_low;
    rest = [];
  }
  scan stop target max_high min_low last (candle ∷ rest) =
      let high = max_of max_high candle.high in
      let low = min_of min_low candle.low in
      let exit = λ (price : A) (reason : Reason).
        let e : Exit A = record {
          exit_bar = candle;
          exit_price = price;
          reason = reason;
          max_high = high;
          min_low = low;
          rest = rest;
        } in
        e in
      elim (n.le candle.low stop && n.le target candle.high) [
        | true ↦ exit stop ambiguous_stop_first
        | false ↦ elim (n.le candle.low stop) [
          | true ↦ exit stop stop_loss
          | false ↦ elim (n.le target candle.high) [
            | true ↦ exit target take_profit
            | false ↦ scan stop target high low candle rest
          ]
        ]
      ]

  pub legacy_trade : Config A → Bar A → Bar A → A → A → A → Exit A → Trade A
  legacy_trade c signal entry_bar entry stop target e =
      let gross = n.sub e.exit_price entry in
      let net = n.sub gross c.commission_price in
      record {
        signal_timestamp = signal.timestamp;
        entry_timestamp = entry_bar.timestamp;
        exit_timestamp = e.exit_bar.timestamp;
        side = long;
        entry_price = n.round 6 entry;
        stop_price = n.round 6 stop;
        target_price = n.round 6 target;
        exit_price = n.round 6 e.exit_price;
        exit_reason = e.reason;
        gross_pnl_price = n.round 6 gross;
        net_pnl_price = n.round 6 net;
        mae_price = n.round 6 (n.sub e.min_low entry);
        mfe_price = n.round 6 (n.sub e.max_high entry);
        rule_evaluation = none;
      }

  -- The position opened on `entry_bar`, followed to its exit.
  pub legacy_exit : Config A → Bar A → List (Bar A) → Exit A
  unfolding scan
  legacy_exit c entry_bar rest =
      let entry = n.add entry_bar.open_price c.spread_price in
      scan (n.sub entry c.stop_distance) (n.add entry c.target_distance) entry_bar.high
        entry_bar.low entry_bar (entry_bar ∷ rest)

  -- `while index < len(bars) - 1`: the list is `bars[index - 1:]`, so that `index += 1` drops a bar
  -- and `index = exit_index + 1` leaves the bars from the exit on. `none`: the fuel ran out.
  pub legacy_loop : Config A → ℕ → List (Bar A) → List (Trade A) → Option (List (Trade A))
  unfolding legacy_exit legacy_trade
  legacy_loop c zero bars trades = none
  legacy_loop c (suc fuel) (previous ∷ signal ∷ entry_bar ∷ rest) trades =
      let entry = n.add entry_bar.open_price c.spread_price in
      let stop = n.sub entry c.stop_distance in
      let target = n.add entry c.target_distance in
      let e = legacy_exit c entry_bar rest in
      elim (n.lt previous.close previous.open_price && n.lt signal.open_price signal.close) [
        | false ↦ legacy_loop c fuel (signal ∷ entry_bar ∷ rest) trades
        | true ↦
            legacy_loop c fuel (e.exit_bar ∷ e.rest)
              (trades ++ (legacy_trade c signal entry_bar entry stop target e ∷ []))
      ]
  legacy_loop c (suc fuel) bars trades = some trades

  unfoldable pub simulate_legacy : List (Bar A) → Config A → Option (List (Trade A))
  unfolding legacy_loop
  simulate_legacy bars c = legacy_loop c (suc (length bars)) bars []
