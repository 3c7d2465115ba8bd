-- ===== src/Kernel/Examples.antt =====
-- Runs of the kernel on a few bars, with prices in whole cents, and its theorems at those bars.
use arkana.Base.{
  ℕ, suc, ◌≡◌, refl, ◌≢◌, true, none, some, List, [], ◌∷◌, ok, Returned, arith, length, ℤ, pos,
  negsuc, int_number, String, Option, Result, raised, All, ◌++◌,
}
use arkana.Market.{Bar}
use arkana.Kernel.{Callbacks, Config, Trade, long, number, simulate_kernel, take_profit}
use arkana.Kernel.Chunks.{concat, simulate_kernel-rechunk}
use arkana.Kernel.Regimes.{Filed, filing, IsDated, bucketed, simulate_kernel-IsDated}
use arkana.Gate.{Breakdown, on_candle, on_entry}
use arkana.Kernel.Legacy.{no_callbacks, Decider, simulate, simulate_legacy}
use arkana.Kernel.Legacy.Parity.{simulate-eq-simulate_legacy}
use arkana.Kernel.Ledger.{IsSequenced, simulate_kernel-IsSequenced}
use arkana.Kernel.Entries.{CountsEntries, simulate_kernel-entries}
use arkana.Kernel.Returns.{simulate_kernel-returns}

abbrev bar : ℕ → ℕ → ℕ → ℕ → ℕ → Bar ℤ
bar t o h l c = record {
  timestamp = t;
  open_price = pos o;
  high = pos h;
  low = pos l;
  close = pos c;
}

abbrev bearish : Bar ℤ
bearish = bar 60 100 102 95 96

abbrev bullish_bar : Bar ℤ
bullish_bar = bar 120 96 105 95 104

abbrev entry_bar : Bar ℤ
entry_bar = bar 180 104 106 103 105

abbrev winner : Bar ℤ
winner = bar 240 105 120 104 118

abbrev tail_bar : Bar ℤ
tail_bar = bar 300 118 119 110 112

abbrev bars : List (Bar ℤ)
bars = bearish ∷ bullish_bar ∷ entry_bar ∷ winner ∷ tail_bar ∷ []

abbrev config : Config ℤ
config = record {
  direction = none;
  stop_distance = pos 10;
  target_distance = pos 10;
  spread_price = pos 2;
  commission_price = pos 1;
}

abbrev won : Trade ℤ
won = record {
  signal_timestamp = 120;
  entry_timestamp = 180;
  exit_timestamp = 240;
  side = long;
  entry_price = pos 106;
  stop_price = pos 96;
  target_price = pos 116;
  exit_price = pos 116;
  exit_reason = take_profit;
  gross_pnl_price = pos 10;
  net_pnl_price = pos 9;
  mae_price = negsuc 2;
  mfe_price = pos 14;
  rule_evaluation = none;
}

takes_profit : simulate {D = Unit {0}} bars config none tt ≡ ok (tt, won ∷ [])
unfolding simulate
takes_profit = refl

legacy_takes_profit : simulate_legacy bars config ≡ some (won ∷ [])
unfolding simulate_legacy
legacy_takes_profit = refl

-- A bar that holds both the stop and the target is a stop.
both_hit : simulate_legacy (bearish ∷ bullish_bar ∷ bar 180 104 130 90 105 ∷ []) config ≢ some []
unfolding simulate_legacy
both_hit = cc

simulate_kernel-rechunk_example :
    simulate_kernel
      (no_callbacks {D = Unit {0}} none)
      config
      ((bearish ∷ bullish_bar ∷ []) ∷ (entry_bar ∷ winner ∷ []) ∷ [])
      tt
    ≡ simulate_kernel
        (no_callbacks none)
        config
        ((bearish ∷ []) ∷ [] ∷ (bullish_bar ∷ entry_bar ∷ winner ∷ []) ∷ [])
        tt
simulate_kernel-rechunk_example =
    simulate_kernel-rechunk (no_callbacks none) config
      ((bearish ∷ bullish_bar ∷ []) ∷ (entry_bar ∷ winner ∷ []) ∷ [])
      ((bearish ∷ []) ∷ [] ∷ (bullish_bar ∷ entry_bar ∷ winner ∷ []) ∷ []) tt refl

simulate-eq-simulate_legacy_example :
    (ledger : List (Trade ℤ)) × (simulate_legacy bars config ≡ some ledger)
    × (simulate {D = Unit {0}} bars config none tt ≡ ok (tt, ledger))
simulate-eq-simulate_legacy_example = simulate-eq-simulate_legacy config refl bars tt

simulate_kernel-IsSequenced_example : IsSequenced 0 (won ∷ [])
unfolding simulate
simulate_kernel-IsSequenced_example =
    simulate_kernel-IsSequenced (no_callbacks {D = Unit {0}} none) config refl 0 (bars ∷ []) tt
      (omega arith) refl

-- A caller that counts the entries.
abbrev counting : Callbacks ℤ ℕ
counting = record {
  on_trade = none;
  on_candle = λ _ d. d;
  on_entry = λ _ d. suc d;
  on_signal = λ _ d. d;
  signal_decider = none;
}

counting-CountsEntries : CountsEntries counting (λ d. d)
counting-CountsEntries = record {
  keeps_ledger = refl;
  candle = λ b d. refl;
  signal = λ b d. refl;
  entry = λ b d. refl;
  decider = tt;
}

simulate_kernel-entries_example : 1 ≡ length (won ∷ [])
unfolding simulate_kernel
simulate_kernel-entries_example =
    simulate_kernel-entries counting config (λ d. d) counting-CountsEntries (bars ∷ []) 0
      {ledger = won ∷ []} refl refl

abbrev twenty : ℤ → List ℤ
twenty a = let five = a ∷ a ∷ a ∷ a ∷ a ∷ [] in (five ++ five) ++ (five ++ five)

-- A breakdown with thresholds, and the closes of twenty earlier candles.
abbrev calibrated : Breakdown ℤ
calibrated = record {
  thresholds =
      some (record { volatility_low = pos 4; volatility_high = pos 9; trend_efficiency = pos 1 });
  closes = twenty (pos 100);
  current_regime = none;
  pre_candle_regime = none;
  entry_regime = none;
  year_net_pnl = [];
  regime_net_pnl = [];
}

abbrev in_2024 : ℕ → String
in_2024 t = "2024"

-- What a run over the five bars files.
abbrev filed_by : Result (Filed ℤ × List (Trade ℤ)) → Filed ℤ
filed_by (ok (d, ledger)) = d
filed_by (raised e) = (calibrated, [])

abbrev filed : Filed ℤ
filed = filed_by (simulate_kernel (filing in_2024 none) config (bars ∷ []) (calibrated, []))

-- The candle before the entry bar has a range of ten.
files_one_trade : filed.1 ≡ ((won, some "RANGING+HIGH") ∷ [])
unfolding simulate_kernel on_candle on_entry
files_one_trade = refl

simulate_kernel-IsDated_example :
    All
      (λ (i : Trade ℤ × Option String).
        IsDated in_2024 none calibrated config (concat (bars ∷ [])) i.0.entry_timestamp i.1)
      filed.1
    × (filed.0.regime_net_pnl ≡ bucketed in_2024 none calibrated config filed.1)
unfolding simulate_kernel
simulate_kernel-IsDated_example =
    simulate_kernel-IsDated in_2024 none calibrated config (bars ∷ []) filed [] refl

-- A decider that always opens, with a stop of its own.
abbrev eager : Decider ℤ (Unit {0})
eager b g d = ok (
  some (record { eligible = true; stop_distance = some (number (pos 5)); target_distance = none }),
  d,
)

simulate_kernel-returns_example :
    Returned (simulate_kernel (no_callbacks (some eager)) config (bars ∷ []) tt)
simulate_kernel-returns_example =
    simulate_kernel-returns (no_callbacks (some eager)) config
      (λ b g d. (
        (
          some (record {
            eligible = true;
            stop_distance = some (number (pos 5));
            target_distance = none;
          }),
          d,
        ),
        refl,
        (refl, tt),
      ))
      (bars ∷ []) tt
