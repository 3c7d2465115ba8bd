-- ===== src/Capital.antt =====
-- The capital simulations of services/research/app: capital_simulations.py (`trade_money_pnl`,
-- `_EquityAccumulator`), fractional_risk_simulations.py (`round_volume_down`, `_RiskAccumulator`). A
-- `Decimal` and a `float` are both values of one `Number`, `_money` is `round` to 8 places, and the
-- passage of a volume through `float` and back is the argument `as_float`. The points that are
-- returned for storage are left out but for their kind.
pub mod Curve
pub mod Constrained
mod Examples
use arkana.Base.{
  ℕ, zero, suc, ◌+◌, Bool, true, false, not, ◌&&◌, ◌||◌, Option, none, some, List, [], ◌∷◌, Result,
  ok, raised, ◌>>=◌, Number, nought, max_of, min_of, abs_of, if◌then◌else◌,
}
use arkana.Kernel.{Trade}

-- The snapshot's keys that the simulations read.
pub record Metadata (A : Type 0) : Type 0 where
  pub tick_size : A
  pub tick_value_profit : A
  pub tick_value_loss : A
  pub volume_min : A
  pub volume_max : A
  pub volume_step : A

pub data VolumeStatus (A : Type 0) : Type 0 where
  ready : A → VolumeStatus A
  below_minimum_volume above_maximum_volume : VolumeStatus A

-- What both accumulators keep of the realized path.
pub record Account (A : Type 0) : Type 0 where
  pub balance : A
  pub peak : A
  pub maximum_drawdown : A
  pub gross_profit : A
  pub gross_loss : A
  pub wins : ℕ
  pub losses : ℕ

module _ {A : Type 0} ⦃n : Number A⦄ where
  abbrev pub money : A → A
  money value = n.round 8 value

  abbrev pub is_positive : A → Bool
  is_positive a = n.lt nought a

  abbrev pub not_positive : A → Bool
  not_positive a = n.le a nought

  -- `trade_money_pnl`
  pub trade_money_pnl : Metadata A → Trade A → A → Result A
  trade_money_pnl metadata trade volume =
      let net_price = trade.net_pnl_price in
      let tick_value =
        if n.le nought net_price then metadata.tick_value_profit else metadata.tick_value_loss in
      if not_positive metadata.tick_size
      then raised "broker.tick_size must be positive"
      else if not_positive tick_value
      then raised "broker.tick_value must be positive"
      else ok (money (n.mul (n.mul (n.div net_price metadata.tick_size) tick_value) volume))

  -- The balance, its peak and drawdown, and the win or loss that a profit adds.
  pub realize : A → Account A → Account A
  realize pnl a =
      let balance = money (n.add a.balance pnl) in
      let peak = max_of a.peak balance in
      let drawdown = money (n.sub peak balance) in
      let won = is_positive pnl in
      record {
        balance = balance;
        peak = peak;
        maximum_drawdown = max_of a.maximum_drawdown drawdown;
        gross_profit = if won then n.add a.gross_profit pnl else a.gross_profit;
        gross_loss = if won then a.gross_loss else n.add a.gross_loss pnl;
        wins = if won then a.wins + 1 else a.wins;
        losses = if won then a.losses else a.losses + 1;
      }

  abbrev pub new_account : A → Account A
  new_account starting = record {
    balance = starting;
    peak = starting;
    maximum_drawdown = nought;
    gross_profit = nought;
    gross_loss = nought;
    wins = 0;
    losses = 0;
  }

  -- `round_volume_down`; `floor` is `to_integral_value(rounding=ROUND_FLOOR)`.
  pub round_volume_down : (A → A) → A → Metadata A → Result (VolumeStatus A)
  round_volume_down floor raw metadata =
      let minimum = metadata.volume_min in
      let maximum = metadata.volume_max in
      let step = metadata.volume_step in
      if (not_positive minimum || n.lt maximum minimum) || not_positive step
      then raised "Broker volume grid is invalid"
      else if n.lt raw minimum
      then ok below_minimum_volume
      else if n.lt maximum raw
      then ok above_maximum_volume
      else ok (ready (n.add minimum (n.mul (floor (n.div (n.sub raw minimum) step)) step)))

-- `_EquityAccumulator`
pub record EquityAccumulator (A : Type 0) : Type 0 where
  pub metadata : Metadata A
  pub starting : A
  pub volume : A
  pub account : Account A
  pub count : ℕ
  pub observed_price_pnl : A

-- Why a fractional-risk path stops.
pub data Boundary : Type 0 where
  nonpositive_risk_base invalid_stop_risk_input below_minimum above_maximum : Boundary

-- `_RiskAccumulator`
pub record RiskAccumulator (A : Type 0) : Type 0 where
  pub metadata : Metadata A
  pub starting : A
  pub risk_fraction : A
  pub compounding : Bool
  pub commission_price : A
  pub account : Account A
  pub source_count : ℕ
  pub simulated_count : ℕ
  pub point_sequence : ℕ
  pub observed_price_pnl : A
  pub boundary : Option Boundary
  pub minimum_volume : Option A
  pub maximum_volume : Option A

-- The kind of point that `observe` returns, with its sequence number.
pub data Point : Type 0 where
  trade_closed sizing_boundary : ℕ → Point

module _ {A : Type 0} ⦃n : Number A⦄ where
  pub new_equity : Metadata A → A → A → Result (EquityAccumulator A)
  new_equity metadata starting_capital volume =
      let starting = money starting_capital in
      if not_positive starting
      then raised "starting_capital must be positive"
      else ok (record {
        metadata = metadata;
        starting = starting;
        volume = volume;
        account = new_account starting;
        count = 0;
        observed_price_pnl = nought;
      })

  -- `add`, with the sequence number of the point that it returns.
  pub add_trade : EquityAccumulator A → Trade A → Result (ℕ × EquityAccumulator A)
  unfolding trade_money_pnl realize
  add_trade e trade = do
    pnl ← trade_money_pnl e.metadata trade e.volume
    ok (
      e.count + 1,
      record e {
        count = e.count + 1;
        observed_price_pnl = n.add e.observed_price_pnl trade.net_pnl_price;
        account = realize pnl e.account;
      },
    )

  -- `build_equity_path`: the sequence numbers after the starting point's.
  pub build_equity_path :
      List (Trade A) → EquityAccumulator A → Result (List ℕ × EquityAccumulator A)
  unfolding add_trade
  build_equity_path [] e = ok ([], e)
  build_equity_path (trade ∷ rest) e = do
    (sequence, e') ← add_trade e trade
    (path, last) ← build_equity_path rest e'
    ok (sequence ∷ path, last)

  pub new_risk : Metadata A → A → A → Bool → A → Result (RiskAccumulator A)
  new_risk metadata starting_capital risk_fraction compounding commission_price =
      let starting = money starting_capital in
      if not_positive starting || not_positive risk_fraction
      then raised "Starting capital and risk fraction must be positive"
      else if n.lt commission_price nought
      then raised "commission_price must be non-negative"
      else ok (record {
        metadata = metadata;
        starting = starting;
        risk_fraction = risk_fraction;
        compounding = compounding;
        commission_price = commission_price;
        account = new_account starting;
        source_count = 0;
        simulated_count = 0;
        point_sequence = 0;
        observed_price_pnl = nought;
        boundary = none;
        minimum_volume = none;
        maximum_volume = none;
      })

  pub set_boundary : Boundary → RiskAccumulator A → Option Point × RiskAccumulator A
  set_boundary reason r =
      let sequence = r.point_sequence + 1 in
      (
        some (sizing_boundary sequence),
        record r { point_sequence = sequence; boundary = some reason },
      )

  abbrev pub least_of : Option A → A → A
  least_of none volume = volume
  least_of (some least) volume = min_of least volume

  abbrev pub most_of : Option A → A → A
  most_of none volume = volume
  most_of (some most) volume = max_of most volume

  -- A trade whose volume is ready.
  pub close_trade :
      (A → A) → Trade A → A → RiskAccumulator A → Result (Option Point × RiskAccumulator A)
  unfolding trade_money_pnl realize
  close_trade as_float trade volume r = do
    pnl ← trade_money_pnl r.metadata trade (as_float volume)
    let sequence = r.point_sequence + 1
    ok (
      some (trade_closed sequence),
      record r {
        account = realize pnl r.account;
        simulated_count = r.simulated_count + 1;
        point_sequence = sequence;
        minimum_volume = some (least_of r.minimum_volume volume);
        maximum_volume = some (most_of r.maximum_volume volume);
      },
    )

  pub on_volume :
      (A → A)
      → Trade A
      → VolumeStatus A
      → RiskAccumulator A
      → Result (Option Point × RiskAccumulator A)
  unfolding close_trade set_boundary
  on_volume as_float trade (ready rounded) r = close_trade as_float trade (as_float rounded) r
  on_volume as_float trade below_minimum_volume r = ok (set_boundary below_minimum r)
  on_volume as_float trade above_maximum_volume r = ok (set_boundary above_maximum r)

  -- `observe` after its count and its test of the boundary.
  pub size_trade :
      (A → A) → (A → A) → Trade A → RiskAccumulator A → Result (Option Point × RiskAccumulator A)
  unfolding on_volume round_volume_down
  size_trade floor as_float trade r =
      let risk_base = if r.compounding then r.account.balance else r.starting in
      let stop_distance = abs_of (n.sub trade.entry_price trade.stop_price) in
      let tick_size = r.metadata.tick_size in
      let tick_loss = r.metadata.tick_value_loss in
      if not_positive risk_base
      then ok (set_boundary nonpositive_risk_base r)
      else if (not_positive stop_distance || not_positive tick_size) || not_positive tick_loss
      then ok (set_boundary invalid_stop_risk_input r)
      else (let risk_per_lot =
            n.mul (n.div (n.add stop_distance r.commission_price) tick_size) tick_loss in
          let target_risk = money (n.mul risk_base r.risk_fraction) in
          round_volume_down floor (n.div target_risk risk_per_lot) r.metadata >>= λ status.
          on_volume as_float trade status r)

  pub observe :
      (A → A) → (A → A) → RiskAccumulator A → Trade A → Result (Option Point × RiskAccumulator A)
  unfolding size_trade
  observe floor as_float r trade =
      let r' = record r {
        source_count = r.source_count + 1;
        observed_price_pnl = n.add r.observed_price_pnl trade.net_pnl_price;
      } in
      elim r.boundary [ some _ ↦ ok (none, r') | none ↦ size_trade floor as_float trade r' ]

  -- The points that `observe` returns over a ledger.
  pub observe_all :
      (A → A)
      → (A → A)
      → List (Trade A)
      → RiskAccumulator A
      → Result (List Point × RiskAccumulator A)
  unfolding observe
  observe_all floor as_float [] r = ok ([], r)
  observe_all floor as_float (trade ∷ rest) r = do
    (point, r') ← observe floor as_float r trade
    (points, last) ← observe_all floor as_float rest r'
    ok (elim point [ none ↦ points | some p ↦ p ∷ points ], last)
