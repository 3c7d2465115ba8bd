-- ===== src/Evaluator/Examples.antt =====
-- A contract with a moving average, a filter that is negated, a candle and a scaled stop.
use arkana.Base.{
  ℕ, zero, suc, ◌≤◌, ◌≡◌, refl, none, some, List, [], ◌∷◌, ok, arith, Returned, ℤ, pos, negsuc,
  int_number, Dict, get, put, Has,
}
use arkana.Market.{Bar}
use arkana.Kernel.{Config, simulate_kernel}
use arkana.Kernel.Legacy.{no_callbacks}
use arkana.Indicators.{suffix}
use arkana.Evaluator.{
  Timeframe, m1, m5, m15, m30, h1, h4, Rules, no_rules, more_rules, block, all_rules, not_rule,
  candle_direction, bullish, bearish, sma_relation, above, rules_truth, always,
}
use arkana.Evaluator.Lookbacks.{rules_lookbacks, timeframe_key, need, need_all, block_lookback}
use arkana.Evaluator.Lookbacks.Enough.{IsAdmissibleRules, rules_truth-lookbacks}
use arkana.Evaluator.Decide.{Contract}
use arkana.Evaluator.Decide.Usable.{simulate_kernel-decide, MultipliesPositives, batch_decider}

abbrev bar : ℕ → ℕ → ℕ → ℕ → ℕ → Bar ℤ
bar t o h l c = record {
  timestamp = t;
  open_price = pos o;
  high = pos h;
  low = pos l;
  close = pos c;
}

abbrev bars : List (Bar ℤ)
bars =
    bar 0 100 104 98 103
    ∷ bar 60 103 105 101 102
    ∷ bar 120 102 112 101 111
    ∷ bar 180 111 115 110 114
    ∷ bar 240 114 130 113 125
    ∷ []

abbrev zero_deviation : List ℤ → ℤ
zero_deviation closes = pos 0

abbrev rules : Rules ℤ
rules =
    more_rules
      (all_rules (
        more_rules (block none (sma_relation 1 2 above))
          (more_rules (not_rule (block none (candle_direction (some bearish)))) no_rules)))
      no_rules

small_lookbacks : (t : Timeframe) (c : ℕ) → get t (rules_lookbacks m1 rules []) ≡ some c → c ≤ 2
unfolding rules_lookbacks get put need need_all block_lookback
small_lookbacks m1 c e = ground arith
small_lookbacks m5 c e = cc
small_lookbacks m15 c e = cc
small_lookbacks m30 c e = cc
small_lookbacks h1 c e = cc
small_lookbacks h4 c e = cc

rules-IsAdmissibleRules : IsAdmissibleRules rules
unfolding IsAdmissibleRules
rules-IsAdmissibleRules = ((((omega arith, omega arith), (tt, tt)), tt))

rules_truth-lookbacks_example :
    rules_truth zero_deviation m1 (λ t. ok (suffix 2 bars)) rules
    ≡ rules_truth zero_deviation m1 (λ t. ok bars) rules
rules_truth-lookbacks_example =
    rules_truth-lookbacks zero_deviation m1 (λ t. ok bars) (λ t. ok (suffix 2 bars)) rules
      rules-IsAdmissibleRules (λ t c e. (bars, 2, refl, refl, small_lookbacks t c e))

abbrev contract : Contract ℤ
contract = record {
  execution = m1;
  context_rules = rules;
  setup_rules = more_rules (block none always) no_rules;
  trigger_rules = more_rules (block none (candle_direction (some bullish))) no_rules;
  session_windows = some ((0, 8) ∷ []);
  stop_scaling = some (2, pos 3);
  target_scaling = none;
}

ℤ-MultipliesPositives : MultipliesPositives ℤ
ℤ-MultipliesPositives (pos zero) b h k = ground arith
ℤ-MultipliesPositives (negsuc a) b h k = ground arith
ℤ-MultipliesPositives (pos (suc a)) (pos zero) h k = cc
ℤ-MultipliesPositives (pos (suc a)) (negsuc b) h k = ground arith
ℤ-MultipliesPositives (pos (suc a)) (pos (suc b)) h k = ground arith

abbrev registered_bars : Dict Timeframe (List (Bar ℤ))
registered_bars = (m1, bars) ∷ (m5, []) ∷ (m15, []) ∷ (m30, []) ∷ (h1, []) ∷ (h4, []) ∷ []

all_registered : (t : Timeframe) → Has t registered_bars
unfolding get
all_registered m1 = (bars, refl)
all_registered m5 = ([], refl)
all_registered m15 = ([], refl)
all_registered m30 = ([], refl)
all_registered h1 = ([], refl)
all_registered h4 = ([], refl)

abbrev config : Config ℤ
config = record {
  direction = none;
  stop_distance = pos 10;
  target_distance = pos 10;
  spread_price = pos 2;
  commission_price = pos 1;
}

simulate_kernel-decide_example : Returned (
    simulate_kernel
      (no_callbacks {D = Unit {0}} (some (batch_decider zero_deviation contract registered_bars)))
      config
      (bars ∷ [])
      tt)
simulate_kernel-decide_example =
    simulate_kernel-decide zero_deviation contract registered_bars config (bars ∷ [])
      ℤ-MultipliesPositives refl tt (λ t count e. all_registered t)
