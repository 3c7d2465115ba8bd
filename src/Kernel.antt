-- ===== src/Kernel.antt =====
-- services/research/app/backtesting.py: the candle-by-candle execution kernel `simulate_kernel`.
-- Prices are of an abstract type `A` with the operations of `Number`. The callbacks are functions on
-- an environment `D`, which is whatever the caller's closures read and write.
pub mod Chunks
pub mod Ledger
pub mod Entries
pub mod Regimes
pub mod Returns
mod Examples
pub mod Legacy
use arkana.Base.{
  ℕ, Bool, true, false, ◌&&◌, Option, none, some, List, [], ◌∷◌, ◌++◌, Result, ok, raised, ◌>>=◌,
  String, Number, nought, max_of, min_of, if◌then◌else◌,
}
use arkana.Market.{Bar}

pub data Side : Type 0 where
  long short : Side

pub data Reason : Type 0 where
  ambiguous_stop_first stop_loss take_profit data_end : Reason

-- A value that a rule evaluation carries under a key: a number, or what fails `isinstance`.
pub data Value (A : Type 0) : Type 0 where
  number : A → Value A
  not_number : Value A

pub record Evaluation (A : Type 0) : Type 0 where
  pub eligible : Bool
  pub stop_distance : Option (Value A)
  pub target_distance : Option (Value A)

pub record Config (A : Type 0) : Type 0 where
  pub direction : Option Side
  pub stop_distance : A
  pub target_distance : A
  pub spread_price : A
  pub commission_price : A

pub record Trade (A : Type 0) : Type 0 where
  pub signal_timestamp : ℕ
  pub entry_timestamp : ℕ
  pub exit_timestamp : ℕ
  pub side : Side
  pub entry_price : A
  pub stop_price : A
  pub target_price : A
  pub exit_price : A
  pub exit_reason : Reason
  pub gross_pnl_price : A
  pub net_pnl_price : A
  pub mae_price : A
  pub mfe_price : A
  pub rule_evaluation : Option (Evaluation A)

pub record Active (A : Type 0) : Type 0 where
  pub signal : Bar A
  pub entry_bar : Bar A
  pub entry : A
  pub stop : A
  pub target : A
  pub max_high : A
  pub min_low : A
  pub rule_evaluation : Option (Evaluation A)

-- A callback that the caller leaves out is the identity; without `on_trade` the kernel keeps a list.
pub record Callbacks (A D : Type 0) : Type 0 where
  pub on_trade : Option (Trade A → D → D)
  pub on_candle : Bar A → D → D
  pub on_entry : Bar A → D → D
  pub on_signal : Bar A → D → D
  pub signal_decider : Option (Bar A → Bar A → D → Result (Option (Evaluation A) × D))

pub record State (A D : Type 0) : Type 0 where
  pub env : D
  pub trades : List (Trade A)
  pub before_signal : Option (Bar A)
  pub signal : Option (Bar A)
  pub active : Option (Active A)

abbrev pub side_of : {A : Type 0} → Config A → Side
side_of c = elim c.direction [ none ↦ long | some d ↦ d ]

abbrev stop_message : String
stop_message = "rule evaluation stop_distance must be a positive price-unit value"

abbrev target_message : String
target_message = "rule evaluation target_distance must be a positive price-unit value"

module _ {A : Type 0} ⦃n : Number A⦄ where
  -- `sign * x` for `sign` 1 or -1, which is exact.
  abbrev pub signed : Side → A → A
  signed long x = x
  signed short x = n.neg x

  pub hits : Side → Bar A → A → A → Bool × Bool
  hits long candle stop target = (n.le candle.low stop, n.le target candle.high)
  hits short candle stop target = (n.le stop candle.high, n.le candle.low target)

  pub excursions : Side → A → A → A → A × A
  excursions long low high entry = (n.sub low entry, n.sub high entry)
  excursions short low high entry = (n.neg (n.sub high entry), n.neg (n.sub low entry))

  -- The body of `distance` once the key's value is read.
  pub distance : Option (Value A) → A → String → Result A
  distance none fixed message = ok fixed
  distance (some (number v)) fixed message = if n.le v nought then raised message else ok v
  distance (some not_number) fixed message = raised message

  pub exit_of : Active A → Bool × Bool → Option (A × Reason)
  exit_of p (true, true) = some (p.stop, ambiguous_stop_first)
  exit_of p (true, false) = some (p.stop, stop_loss)
  exit_of p (false, true) = some (p.target, take_profit)
  exit_of p (false, false) = none

  pub trade_of : Config A → Active A → Bar A → A → Reason → Trade A
  unfolding excursions
  trade_of c p candle exit_price reason =
      let side = side_of c in
      let gross = signed side (n.sub exit_price p.entry) in
      let (mae, mfe) = excursions side p.min_low p.max_high p.entry in
      record {
        signal_timestamp = p.signal.timestamp;
        entry_timestamp = p.entry_bar.timestamp;
        exit_timestamp = candle.timestamp;
        side = side;
        entry_price = n.round 6 p.entry;
        stop_price = n.round 6 p.stop;
        target_price = n.round 6 p.target;
        exit_price = n.round 6 exit_price;
        exit_reason = reason;
        gross_pnl_price = n.round 6 gross;
        net_pnl_price = n.round 6 (n.sub gross c.commission_price);
        mae_price = n.round 6 mae;
        mfe_price = n.round 6 mfe;
        rule_evaluation = p.rule_evaluation;
      }

  -- The extremes that a candle adds to an open position.
  pub extend : Active A → Bar A → Active A
  extend p candle = record p {
    max_high = max_of p.max_high candle.high;
    min_low = min_of p.min_low candle.low;
  }

  -- The position that is opened on a candle, on a signal and its evaluation.
  pub open_position : Config A → Bar A → Bar A → Option (Evaluation A) → Result (Active A)
  unfolding distance
  open_position c g candle evaluation = do
    let side = side_of c
    let entry = n.add candle.open_price (signed side c.spread_price)
    stop_distance ←
        distance (elim evaluation [ none ↦ none | some e ↦ e.stop_distance ]) c.stop_distance
          stop_message
    target_distance ←
        distance (elim evaluation [ none ↦ none | some e ↦ e.target_distance ]) c.target_distance
          target_message
    ok (record {
      signal = g;
      entry_bar = candle;
      entry = entry;
      stop = n.sub entry (signed side stop_distance);
      target = n.add entry (signed side target_distance);
      max_high = candle.high;
      min_low = candle.low;
      rule_evaluation = evaluation;
    })

  -- Without a decider: a bearish candle, then a bullish one.
  pub is_reversal : Bar A → Bar A → Bool
  is_reversal b g = n.lt b.close b.open_price && n.lt g.open_price g.close

  module _ {D : Type 0} (cb : Callbacks A D) (c : Config A) where
    -- the inner function `record`
    pub emit : Trade A → State A D → State A D
    emit t s = elim cb.on_trade [
      | none ↦ record s { trades = s.trades ++ (t ∷ []) }
      | some f ↦ record s { env = f t s.env }
    ]

    -- The two-candle window after a candle, `closed` being `closed_this_candle`.
    pub rotate : Bool → Bar A → State A D → State A D
    rotate true candle s = record s { before_signal = none; signal = some candle }
    rotate false candle s = record s { before_signal = s.signal; signal = some candle }

    -- The stop and target tests of a position on a candle, and the end of the loop's body.
    pub manage : Active A → Bar A → State A D → State A D
    unfolding hits exit_of trade_of emit rotate
    manage p candle s = elim (exit_of p (hits (side_of c) candle p.stop p.target)) [
      | none ↦ rotate false candle (record s { active = some p })
      | some (price, reason) ↦
          rotate true candle (record (emit (trade_of c p candle price reason) s) { active = none })
    ]

    pub eligibility : Bar A → Bar A → D → Result (Bool × Option (Evaluation A) × D)
    unfolding is_reversal
    eligibility b g d = elim cb.signal_decider [
      | none ↦ ok (is_reversal b g, none, d)
      | some f ↦ (do
        (evaluation, d') ← f b g d
        ok (elim evaluation [ none ↦ false | some e ↦ e.eligible ], evaluation, d'))
    ]

    pub take_signal : Bool → Option (Evaluation A) → Bar A → Bar A → State A D → Result (State A D)
    unfolding manage open_position
    take_signal true evaluation g candle s = do
      p ← open_position c g candle evaluation
      ok (manage p candle (record s { env = cb.on_entry candle (cb.on_signal g s.env) }))
    take_signal false evaluation g candle s = ok (rotate false candle s)

    pub enter : Bar A → Bar A → Bar A → State A D → Result (State A D)
    unfolding eligibility take_signal
    enter b g candle s = do
      (eligible, evaluation, d) ← eligibility b g s.env
      take_signal eligible evaluation g candle (record s { env = d })

    pub dispatch :
        Bar A → State A D → Option (Active A) → Option (Bar A) → Option (Bar A) → Result (State A D)
    unfolding enter extend
    dispatch candle s (some p) before signal = ok (manage (extend p candle) candle s)
    dispatch candle s none (some b) (some g) = enter b g candle s
    dispatch candle s none none signal = ok (rotate false candle s)
    dispatch candle s none (some b) none = ok (rotate false candle s)

    -- The body of the loop over the candles.
    pub step : State A D → Bar A → Result (State A D)
    unfolding dispatch
    step s candle =
        dispatch candle (record s { env = cb.on_candle candle s.env }) s.active s.before_signal
          s.signal

    pub over_chunk : List (Bar A) → State A D → Result (State A D)
    over_chunk [] s = ok s
    over_chunk (candle ∷ rest) s = step s candle >>= over_chunk rest

    pub over_chunks : List (List (Bar A)) → State A D → Result (State A D)
    over_chunks [] s = ok s
    over_chunks (chunk ∷ rest) s = over_chunk chunk s >>= over_chunks rest

    -- After the last candle an open position is closed at that candle's close.
    pub close_open : State A D → Option (Active A) → Option (Bar A) → Result (State A D)
    unfolding emit trade_of
    close_open s none signal = ok s
    close_open s (some p) (some candle) = ok (emit (trade_of c p candle candle.close data_end) s)
    close_open s (some p) none = raised "'NoneType' object is not subscriptable"

    abbrev pub start : D → State A D
    start d = record { env = d; trades = []; before_signal = none; signal = none; active = none }

    -- The environment that the callbacks leave, and the ledger.
    pub simulate_kernel : List (List (Bar A)) → D → Result (D × List (Trade A))
    unfolding over_chunks over_chunk step close_open
    simulate_kernel chunks d = do
      s ← over_chunks chunks (start d)
      s' ← close_open s s.active s.signal
      ok (s'.env, s'.trades)
