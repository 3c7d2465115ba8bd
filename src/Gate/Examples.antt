-- ===== src/Gate/Examples.antt =====
-- A gate over small evidence, in whole cents.
use arkana.Base.{◌≡◌, refl, ◌↔◌, true, [], ◌∷◌, ℕ, ℤ, pos, int_number, ℤ-IsOrdered, put, get}
use arkana.Gate.{Policy, SplitEvidence, GateEvidence, pass, insufficient_evidence, evaluate_gate}
use arkana.Gate.Decision.{IsRobust, evaluate_gate_iff}

abbrev policy : Policy ℤ
policy = record { minimum_trades = 100; profit_factor = pos 1; maximum_concentration = pos 1 }

abbrev split : ℕ → SplitEvidence ℤ
split trades = record {
  trade_count = trades;
  net_pnl_price = pos 50;
  gate_inputs = record { gross_profit_price = pos 90; gross_loss_price = pos 40 };
  year_net_pnl = ("2023", pos 25) ∷ ("2024", pos 25) ∷ [];
  regime_net_pnl = ("RANGING+LOW", pos 20) ∷ ("TRENDING+HIGH", pos 30) ∷ [];
}

abbrev evidence : ℕ → GateEvidence ℤ
evidence trades = record {
  holdout = split trades;
  final_oos = split 100;
  adverse_final_oos = pos 3;
  regime_available = true;
}

passes_gate : evaluate_gate policy (evidence 100) ≡ pass
unfolding evaluate_gate put get
passes_gate = refl

too_few : evaluate_gate policy (evidence 99) ≡ insufficient_evidence
unfolding evaluate_gate put get
too_few = refl

evaluate_gate_iff_example :
    (evaluate_gate policy (evidence 100) ≡ pass) ↔ IsRobust policy (evidence 100)
evaluate_gate_iff_example = evaluate_gate_iff policy ℤ-IsOrdered (evidence 100)
