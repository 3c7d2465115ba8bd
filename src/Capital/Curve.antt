-- ===== src/Capital/Curve.antt =====
-- The path of points that a fractional-risk simulation leaves, and its counts.
use arkana.Base.{
  String, ℕ, suc, ◌+◌, ◌≡◌, refl, ap, subst, Bool, ◌||◌, Option, none, some, List, [], ◌∷◌, ok,
  raised, >>=-eq-ok, ok-injective, arith, length, Number, nought, max_of, abs_of, IsOrdered, ◌≼◌,
  Bool-cases, inl, inr, ◌⊎◌, if◌then◌else◌,
}
use arkana.Kernel.{Trade}
use arkana.Capital.{
  Metadata, VolumeStatus, ready, below_minimum_volume, above_maximum_volume, Account, Boundary,
  RiskAccumulator, Point, trade_closed, sizing_boundary, money, not_positive, trade_money_pnl,
  realize, round_volume_down, new_risk, set_boundary, close_trade, on_volume, size_trade, observe,
  observe_all, nonpositive_risk_base, invalid_stop_risk_input,
}

-- Points numbered from `k + 1` on, of which only the last can be a sizing boundary.
abbrev pub IsPath : ℕ → List Point → Type 0
IsPath k [] = Unit
IsPath k (trade_closed sequence ∷ points) = (sequence ≡ suc k) × IsPath (suc k) points
IsPath k (sizing_boundary sequence ∷ points) = (sequence ≡ suc k) × (points ≡ [])

ok-not-raised : {A : Type 0} {a : A} {message : String} → raised message ≡ ok a → ⊥
ok-not-raised e = cc

module _ {A : Type 0} ⦃n : Number A⦄ (ordered : IsOrdered A) where
  -- The counts of an accumulator, and the balance that is never above the peak.
  pub record IsTracked (r : RiskAccumulator A) : Type 0 where
    pub counts : r.account.wins + r.account.losses ≡ r.simulated_count
    pub under_peak : r.account.balance ≼ r.account.peak

  le-max_of : (a b : A) → b ≼ max_of a b
  le-max_of a b = ground (arith, ordered.lt-eq-not-le a b, ordered.le_refl b)

  realize-under_peak : (pnl : A) (a : Account A) → (realize pnl a).balance ≼ (realize pnl a).peak
  unfolding realize
  realize-under_peak pnl a = le-max_of a.peak (money (n.add a.balance pnl))

  realize-counts :
      (pnl : A) (a : Account A)
      → (realize pnl a).wins + (realize pnl a).losses ≡ suc (a.wins + a.losses)
  unfolding realize
  realize-counts pnl a = ground arith

  -- What one observed trade does while no boundary is reached.
  record IsClosed (r r' : RiskAccumulator A) (point : Option Point) : Type 0 where
    at : point ≡ some (trade_closed (suc r.point_sequence))
    sequence : r'.point_sequence ≡ suc r.point_sequence
    still_open : r'.boundary ≡ none
    tracked : IsTracked r'
    source : r'.source_count ≡ r.source_count

  record IsStopped (r r' : RiskAccumulator A) (point : Option Point) : Type 0 where
    reason : Boundary
    at : point ≡ some (sizing_boundary (suc r.point_sequence))
    sequence : r'.point_sequence ≡ suc r.point_sequence
    stopped : r'.boundary ≡ some reason
    tracked : IsTracked r'
    source : r'.source_count ≡ r.source_count

  abbrev IsSized : RiskAccumulator A → Option Point × RiskAccumulator A → Type 0
  IsSized r (point, r') = IsClosed r r' point ⊎ IsStopped r r' point

  set_boundary-IsSized :
      (reason : Boundary) (r : RiskAccumulator A) → IsTracked r → IsSized r (set_boundary reason r)
  unfolding set_boundary
  set_boundary-IsSized reason r h = inr (record {
    reason = reason;
    at = ap (λ k. some (sizing_boundary k)) (omega arith);
    sequence = omega arith;
    stopped = refl;
    tracked = record { counts = h.counts; under_peak = h.under_peak };
    source = refl;
  })

  close_trade-IsSized :
      (as_float : A → A) (trade : Trade A) (volume : A) (r : RiskAccumulator A)
      {o : Option Point × RiskAccumulator A}
      → r.boundary ≡ none
      → IsTracked r
      → close_trade as_float trade volume r ≡ ok o
      → IsSized r o
  unfolding close_trade
  close_trade-IsSized as_float trade volume r b h e =
      let (pnl, paid, done) = >>=-eq-ok (trade_money_pnl r.metadata trade (as_float volume)) _ e in
      subst (IsSized r) (ok-injective done) (
        inl (record {
          at = ap (λ k. some (trade_closed k)) (omega arith);
          sequence = omega arith;
          still_open = b;
          tracked = record {
            counts = omega (arith, realize-counts pnl r.account, h.counts);
            under_peak = realize-under_peak pnl r.account;
          };
          source = refl;
        }))

  on_volume-IsSized :
      (as_float : A → A) (trade : Trade A) (status : VolumeStatus A) (r : RiskAccumulator A)
      {o : Option Point × RiskAccumulator A}
      → r.boundary ≡ none
      → IsTracked r
      → on_volume as_float trade status r ≡ ok o
      → IsSized r o
  unfolding on_volume
  on_volume-IsSized as_float trade (ready rounded) r b h e =
      close_trade-IsSized as_float trade (as_float rounded) r b h e
  on_volume-IsSized as_float trade below_minimum_volume r b h e =
      subst (IsSized r) (ok-injective e) (set_boundary-IsSized _ r h)
  on_volume-IsSized as_float trade above_maximum_volume r b h e =
      subst (IsSized r) (ok-injective e) (set_boundary-IsSized _ r h)

  size_trade-IsSized :
      (floor as_float : A → A) (trade : Trade A) (r : RiskAccumulator A)
      {o : Option Point × RiskAccumulator A}
      → r.boundary ≡ none
      → IsTracked r
      → size_trade floor as_float trade r ≡ ok o
      → IsSized r o
  unfolding size_trade
  size_trade-IsSized floor as_float trade r b h e =
      let risk_base = if r.compounding then r.account.balance else r.starting in
      let stop_distance = abs_of (n.sub trade.entry_price trade.stop_price) in
      let bad =
        (not_positive stop_distance || not_positive r.metadata.tick_size)
        || not_positive r.metadata.tick_value_loss in
      elim (Bool-cases (not_positive risk_base)) [
        | inl broke ↦
            subst (IsSized r) (ok-injective (rw (broke, size_trade) at e))
              (set_boundary-IsSized nonpositive_risk_base r h)
        | inr funded ↦ elim (Bool-cases bad) [
          | inl invalid ↦
              subst (IsSized r) (ok-injective (rw (funded, invalid) at e))
                (set_boundary-IsSized invalid_stop_risk_input r h)
          | inr valid ↦
              let (status, rounded, done) =
                >>=-eq-ok (round_volume_down floor _ r.metadata) _ (rw (funded, valid) at e) in
              on_volume-IsSized as_float trade status r b h done
        ]
      ]

  -- What a run from `r` over a ledger leaves.
  pub record IsRun (r : RiskAccumulator A) (trades : List (Trade A)) (points : List Point)
      (last : RiskAccumulator A) : Type 0 where
    pub path : IsPath r.point_sequence points
    pub sequence : length points + r.point_sequence ≡ last.point_sequence
    pub tracked : IsTracked last
    pub source : last.source_count ≡ r.source_count + length trades

  abbrev RunsTo : RiskAccumulator A → List (Trade A) → List Point × RiskAccumulator A → Type 0
  RunsTo r trades (points, last) = IsRun r trades points last

  -- After a boundary nothing is simulated.
  abbrev counted : RiskAccumulator A → Trade A → RiskAccumulator A
  counted r trade = record r {
    source_count = r.source_count + 1;
    observed_price_pnl = n.add r.observed_price_pnl trade.net_pnl_price;
  }

  abbrev IsFresh : RiskAccumulator A → Type 0
  IsFresh r = (r.boundary ≡ none) × (r.point_sequence ≡ 0) × (r.source_count ≡ 0) × IsTracked r

  new_risk-IsFresh :
      (metadata : Metadata A) (starting risk_fraction : A) (compounding : Bool) (commission : A)
      (r : RiskAccumulator A)
      → new_risk metadata starting risk_fraction compounding commission ≡ ok r
      → IsFresh r
  unfolding new_risk
  new_risk-IsFresh metadata starting risk_fraction compounding commission r e =
      let poor = not_positive (money starting) || not_positive risk_fraction in
      elim (Bool-cases poor) [
        | inl bad ↦ absurd (ok-not-raised (rw bad at e))
        | inr funded ↦ elim (Bool-cases (n.lt commission nought)) [
          | inl negative ↦ absurd (ok-not-raised (rw (funded, negative) at e))
          | inr fine ↦
              subst IsFresh (ok-injective (rw (funded, fine) at e))
                (refl, refl, refl, record { counts = omega arith; under_peak = ordered.le_refl _ })
        ]
      ]

  module _ (floor as_float : A → A) where
    stopped-RunsTo :
        (trades : List (Trade A)) (r : RiskAccumulator A) (reason : Boundary)
        {o : List Point × RiskAccumulator A}
        → r.boundary ≡ some reason
        → IsTracked r
        → observe_all floor as_float trades r ≡ ok o
        → RunsTo r trades o × (o.0 ≡ [])
    unfolding observe_all observe
    stopped-RunsTo [] r reason b h e =
        subst (λ o. RunsTo r [] o × (o.0 ≡ [])) (ok-injective e)
          (record { path = tt; sequence = omega arith; tracked = h; source = omega arith }, refl)
    stopped-RunsTo (trade ∷ rest) r reason {o} b h e =
        let r' = counted r trade in
        let ((points, last), ran, done) =
          >>=-eq-ok (observe_all floor as_float rest r') _ (rw (b, observe) at e) in
        let (run, empty) =
          stopped-RunsTo rest r' reason b (record { counts = h.counts; under_peak = h.under_peak })
            ran in
        subst (λ o. RunsTo r (trade ∷ rest) o × (o.0 ≡ [])) (ok-injective done)
          (
            record {
              path = run.path;
              sequence = run.sequence;
              tracked = run.tracked;
              source = omega (arith, run.source);
            },
            empty,
          )

    open-RunsTo :
        (trades : List (Trade A)) (r : RiskAccumulator A) {o : List Point × RiskAccumulator A}
        → r.boundary ≡ none
        → IsTracked r
        → observe_all floor as_float trades r ≡ ok o
        → RunsTo r trades o
    unfolding observe_all observe
    open-RunsTo [] r b h e =
        subst (RunsTo r []) (ok-injective e)
          (record { path = tt; sequence = omega arith; tracked = h; source = omega arith })
    open-RunsTo (trade ∷ rest) r b h e =
        let r₁ = counted r trade in
        let ((point, r₂), observed, running) = >>=-eq-ok (observe floor as_float r trade) _ e in
        let ((points, last), ran, done) =
          >>=-eq-ok (observe_all floor as_float rest r₂) _ running in
        let sized =
          size_trade-IsSized floor as_float trade r₁ b
            (record { counts = h.counts; under_peak = h.under_peak })
            (rw (b, observe) at observed) in
        subst (RunsTo r (trade ∷ rest)) (ok-injective done) (elim sized [
          | inl c ↦
              let run = open-RunsTo rest r₂ c.still_open c.tracked ran in
              rw c.at (record {
                path = (refl, rw c.sequence at run.path);
                sequence = omega (arith, run.sequence, c.sequence);
                tracked = run.tracked;
                source = omega (arith, run.source, c.source);
              })
          | inr s ↦
              let (run, empty) = stopped-RunsTo rest r₂ s.reason s.stopped s.tracked ran in
              rw s.at (record {
                path = (refl, empty);
                sequence = omega (arith, run.sequence, s.sequence);
                tracked = run.tracked;
                source = omega (arith, run.source, s.source);
              })
        ])

    -- Over numbers that are ordered, a fractional-risk path that is built without an error has its
    -- points numbered from 1 on, and only the last can be a sizing boundary; it has as many points as
    -- the accumulator's sequence says, every trade of the ledger is counted as seen, the wins and the
    -- losses make up the simulated trades, and the balance is not above the peak.
    pub observe_all-IsRun :
        (metadata : Metadata A) (starting risk_fraction : A) (compounding : Bool) (commission : A)
        (trades : List (Trade A)) (r last : RiskAccumulator A) (points : List Point)
        → new_risk metadata starting risk_fraction compounding commission ≡ ok r
        → observe_all floor as_float trades r ≡ ok (points, last)
        → IsPath 0 points
          × (length points ≡ last.point_sequence)
          × (last.source_count ≡ length trades)
          × (last.account.wins + last.account.losses ≡ last.simulated_count)
          × (last.account.balance ≼ last.account.peak)
    unfolding new_risk
    observe_all-IsRun metadata starting risk_fraction compounding commission trades r last points
          made ran =
        let (b, k, seen, tracked) =
          new_risk-IsFresh metadata starting risk_fraction compounding commission r made in
        let run = open-RunsTo trades r b tracked ran in
        (
          subst (λ m. IsPath m points) k run.path,
          omega (arith, run.sequence, k),
          omega (arith, run.source, seen),
          run.tracked.counts,
          run.tracked.under_peak,
        )
