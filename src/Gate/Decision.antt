-- ===== src/Gate/Decision.antt =====
-- When the gate passes.
use arkana.Base.{◌≤◌, ◌≡◌, ◌↔◌, subst, true, map, String, Dict, arith, Number, nought, IsOrdered}
use arkana.Gate.{
  pass, Policy, SplitEvidence, GateEvidence, concentration, merge_buckets, sufficient_trades,
  checks_of, evaluate_gate,
}
use arkana.Gate.Merged.{merged_names, merged_pnl, values-merge_buckets}
use arkana.Gate.Spread.{IsSpread, HasFactor, profit_factor_check_iff, concentration_iff}

module _ {A : Type 0} ⦃n : Number A⦄ (p : Policy A) where
  -- One of the two splits has what the gate asks of each.
  pub record IsStrong (s : SplitEvidence A) : Type 0 where
    pub enough : p.minimum_trades ≤ s.trade_count
    pub earns : n.lt nought s.net_pnl_price ≡ true
    pub factor : HasFactor p.profit_factor s.gate_inputs

  -- What two splits earned under each name is spread over the names.
  abbrev pub AreSpread : Dict String A → Dict String A → Type 0
  AreSpread holdout final_oos =
      IsSpread p.maximum_concentration
        (map (merged_pnl holdout final_oos) (merged_names holdout final_oos))

  pub record IsRobust (e : GateEvidence A) : Type 0 where
    pub holdout : IsStrong e.holdout
    pub final_oos : IsStrong e.final_oos
    pub calibrated : e.regime_available ≡ true
    pub survives_costs : n.le nought e.adverse_final_oos ≡ true
    pub years : AreSpread e.holdout.year_net_pnl e.final_oos.year_net_pnl
    pub regimes : AreSpread e.holdout.regime_net_pnl e.final_oos.regime_net_pnl

  module _ (ordered : IsOrdered A) where
    merged_iff :
        (holdout final_oos : Dict String A)
        → ((concentration (merge_buckets holdout final_oos) p.maximum_concentration).0 ≡ pass)
          ↔ AreSpread holdout final_oos
    merged_iff holdout final_oos =
        subst
          (λ pnls.
            ((concentration (merge_buckets holdout final_oos) p.maximum_concentration).0 ≡ pass)
            ↔ IsSpread p.maximum_concentration pnls)
          (values-merge_buckets holdout final_oos)
          (concentration_iff ordered p.maximum_concentration (merge_buckets holdout final_oos))

    evaluate_gate-IsRobust : (e : GateEvidence A) → IsRobust e → evaluate_gate p e ≡ pass
    unfolding evaluate_gate checks_of sufficient_trades
    evaluate_gate-IsRobust e h =
        let enough : sufficient_trades p e ≡ true =
          ground (arith, h.holdout.enough, h.final_oos.enough) in
        let factor = λ (s : SplitEvidence A) (strong : IsStrong s).
          (profit_factor_check_iff p.profit_factor s.gate_inputs).1 strong.factor in
        let by_year = (merged_iff e.holdout.year_net_pnl e.final_oos.year_net_pnl).1 h.years in
        let by_regime =
          (merged_iff e.holdout.regime_net_pnl e.final_oos.regime_net_pnl).1 h.regimes in
        rw (
          enough,
          h.calibrated,
          h.holdout.earns,
          h.final_oos.earns,
          factor e.holdout h.holdout,
          factor e.final_oos h.final_oos,
          h.survives_costs,
          by_year,
          by_regime,
        )

    IsRobust-evaluate_gate : (e : GateEvidence A) → evaluate_gate p e ≡ pass → IsRobust e
    unfolding evaluate_gate checks_of sufficient_trades
    IsRobust-evaluate_gate e h =
        let factor =
          λ (s : SplitEvidence A). profit_factor_check_iff p.profit_factor s.gate_inputs in
        let by_year = merged_iff e.holdout.year_net_pnl e.final_oos.year_net_pnl in
        let by_regime = merged_iff e.holdout.regime_net_pnl e.final_oos.regime_net_pnl in
        record {
          holdout = record {
            enough = ground (arith, h);
            earns = ground (arith, h);
            factor = (factor e.holdout).0 (ground (arith, h));
          };
          final_oos = record {
            enough = ground (arith, h);
            earns = ground (arith, h);
            factor = (factor e.final_oos).0 (ground (arith, h));
          };
          calibrated = ground (arith, h);
          survives_costs = ground (arith, h);
          years = by_year.0 (ground (arith, h));
          regimes = by_regime.0 (ground (arith, h));
        }

    -- On ordered numbers, the gate passes exactly when both splits have the minimum of trades, a
    -- positive net profit, and a gross profit that is more than the threshold times the gross loss
    -- (more than 0 without a loss); the regimes are calibrated; the last split survives the adverse
    -- costs; and of what the two splits together earned in each year, and in each regime, something is
    -- positive and no positive part is more than the maximum share of the positive total.
    pub evaluate_gate_iff : (e : GateEvidence A) → (evaluate_gate p e ≡ pass) ↔ IsRobust e
    evaluate_gate_iff e = (IsRobust-evaluate_gate e, evaluate_gate-IsRobust e)
