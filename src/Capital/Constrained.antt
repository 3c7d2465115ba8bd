-- ===== src/Capital/Constrained.antt =====
-- `_Accumulator` of services/research/app/constrained_capital_simulations.py, with `validate_volume` and
-- `cfd_margin` of services/research/app/broker_metadata.py. Python's rounding to the nearest integer is
-- the argument `nearest`. The stored points are left out but for their kind.
pub mod Counts
mod Examples
use arkana.Base.{
  ℕ, zero, suc, ◌+◌, Bool, true, false, not, ◌&&◌, ◌||◌, Option, none, some, List, [], ◌∷◌, Result,
  ok, raised, ◌>>=◌, Number, nought, max_of, min_of, abs_of, if◌then◌else◌, String, Dict, get, put,
  string_key,
}
use arkana.Kernel.{Trade, Side, long, short}
use arkana.Capital.{
  Metadata, VolumeStatus, ready, below_minimum_volume, above_maximum_volume, Account, new_account,
  money, not_positive, is_positive, trade_money_pnl, realize, round_volume_down, least_of, most_of,
}

-- The snapshot's keys that the margin reads; a missing rate is 0.
pub record MarginMetadata (A : Type 0) : Type 0 where
  pub is_cfd : Bool
  pub same_currency : Bool
  pub margin_rate_buy_initial : A
  pub margin_rate_sell_initial : A
  pub contract_size : A
  pub margin_initial : A

pub data Sizing (A : Type 0) : Type 0 where
  fixed_lot : (fixed_volume : A) → Sizing A
  fractional_risk : (compounding : Bool) → (risk_fraction : A) → Sizing A

pub data Rejection : Type 0 where
  invalid_volume nonpositive_risk_base invalid_stop_risk_input : Rejection
  below_minimum above_maximum nonpositive_balance insufficient_margin : Rejection

-- The texts of the reasons.
pub reason_of : Rejection → String
reason_of invalid_volume = "INVALID_VOLUME"
reason_of nonpositive_risk_base = "NONPOSITIVE_RISK_BASE"
reason_of invalid_stop_risk_input = "INVALID_STOP_RISK_INPUT"
reason_of below_minimum = "BELOW_MINIMUM_VOLUME"
reason_of above_maximum = "ABOVE_MAXIMUM_VOLUME"
reason_of nonpositive_balance = "NONPOSITIVE_BALANCE"
reason_of insufficient_margin = "INSUFFICIENT_MARGIN"

pub record Accumulator (A : Type 0) : Type 0 where
  pub metadata : Metadata A
  pub margin_metadata : MarginMetadata A
  pub sizing : Sizing A
  pub max_margin_fraction : A
  pub starting : A
  pub commission_price : A
  pub account : Account A
  pub source_count : ℕ
  pub executed : ℕ
  pub rejected : ℕ
  pub observed_price_pnl : A
  pub rejections : Dict String ℕ
  pub max_evaluated_margin : A
  pub max_executed_margin : A
  pub min_volume : Option A
  pub max_volume : Option A

pub data Outcome : Type 0 where
  trade_rejected : ℕ → Rejection → Outcome
  trade_closed : ℕ → Outcome

-- A volume, or the reason why there is none.
pub data Volume (A : Type 0) : Type 0 where
  volume : A → Volume A
  no_volume : Rejection → Volume A

module _ {A : Type 0} ⦃n : Number A⦄ (nearest floor as_float : A → A) where
  abbrev pub new_accumulator : Metadata A → MarginMetadata A → Sizing A → A → A → A → Accumulator A
  new_accumulator metadata margin_metadata sizing max_margin_fraction capital commission_price =
      record {
        metadata = metadata;
        margin_metadata = margin_metadata;
        sizing = sizing;
        max_margin_fraction = max_margin_fraction;
        starting = money capital;
        commission_price = commission_price;
        account = new_account (money capital);
        source_count = 0;
        executed = 0;
        rejected = 0;
        observed_price_pnl = nought;
        rejections = [];
        max_evaluated_margin = nought;
        max_executed_margin = nought;
        min_volume = none;
        max_volume = none;
      }

  -- The condition under which `validate_volume` raises; its tolerance is 1e-9.
  pub violates : Metadata A → A → Bool
  violates m v =
      let offset = n.sub v m.volume_min in
      let gap = n.sub (n.mul (nearest (n.div offset m.volume_step)) m.volume_step) offset in
      (n.lt v m.volume_min || n.lt m.volume_max v)
      || n.lt (n.div (n.of_ℕ 1) (n.of_ℕ 1000000000)) (abs_of gap)

  pub cfd_margin : Metadata A → MarginMetadata A → Side → A → A → Result A
  unfolding violates
  cfd_margin m mm side price v =
      let rate : A = elim side [
        | long ↦ mm.margin_rate_buy_initial
        | short ↦ mm.margin_rate_sell_initial
      ] in
      let basis =
        if is_positive mm.margin_initial then mm.margin_initial else n.mul mm.contract_size price in
      if not mm.is_cfd
      then raised "Broker margin model supports only MT5 SYMBOL_CALC_MODE_CFD (2)"
      else if not mm.same_currency
      then raised "Broker margin/account currency conversion is unsupported"
      else if violates m v
      then raised "Volume violates broker range"
      else if (not_positive rate || not_positive mm.contract_size) || not_positive price
      then raised "Broker CFD margin inputs must be positive"
      else ok (n.mul (n.mul v basis) rate)

  -- `_reject`
  pub reject : Rejection → Accumulator A → Outcome × Accumulator A
  unfolding reason_of
  reject reason a =
      let reason_text = reason_of reason in
      let before : ℕ = elim (get reason_text a.rejections) [ none ↦ 0 | some k ↦ k ] in
      (
        trade_rejected a.source_count reason,
        record a {
          rejected = a.rejected + 1;
          rejections = put reason_text (before + 1) a.rejections;
        },
      )

  pub volume_of_status : VolumeStatus A → Volume A
  volume_of_status (ready rounded) = volume (as_float rounded)
  volume_of_status below_minimum_volume = no_volume below_minimum
  volume_of_status above_maximum_volume = no_volume above_maximum

  -- `_volume`
  pub volume_of : Sizing A → Accumulator A → Trade A → Result (Volume A)
  unfolding violates round_volume_down volume_of_status
  volume_of (fixed_lot fixed_volume) a trade = ok (
      if violates a.metadata (as_float fixed_volume)
      then no_volume invalid_volume
      else volume fixed_volume)
  volume_of (fractional_risk compounding risk_fraction) a trade =
      let risk_base = if compounding then a.account.balance else a.starting in
      let stop_distance = abs_of (n.sub trade.entry_price trade.stop_price) in
      let tick_size = a.metadata.tick_size in
      let tick_loss = a.metadata.tick_value_loss in
      if not_positive risk_base
      then ok (no_volume nonpositive_risk_base)
      else if (not_positive stop_distance || not_positive tick_size) || not_positive tick_loss
      then ok (no_volume invalid_stop_risk_input)
      else (let risk_per_lot =
            n.mul (n.div (n.add stop_distance a.commission_price) tick_size) tick_loss in
          let target = money (n.mul risk_base risk_fraction) in
          round_volume_down floor (n.div target risk_per_lot) a.metadata >>= λ status.
          ok (volume_of_status status))

  -- The end of `observe`, for a trade whose margin is within the ceiling.
  pub execute : Trade A → A → A → Accumulator A → Result (Outcome × Accumulator A)
  unfolding trade_money_pnl realize
  execute trade v margin a = do
    pnl ← trade_money_pnl a.metadata trade (as_float v)
    ok (
      trade_closed a.source_count,
      record a {
        account = realize pnl a.account;
        executed = a.executed + 1;
        max_executed_margin = max_of a.max_executed_margin margin;
        min_volume = some (least_of a.min_volume v);
        max_volume = some (most_of a.max_volume v);
      },
    )

  -- `observe` once a volume is found.
  pub with_volume : Trade A → A → Accumulator A → Result (Outcome × Accumulator A)
  unfolding cfd_margin reject execute
  with_volume trade v a =
      cfd_margin a.metadata a.margin_metadata trade.side (as_float trade.entry_price) (as_float v)
      >>= λ required.
          let margin = money required in
          let a' = record a { max_evaluated_margin = max_of a.max_evaluated_margin margin } in
          let ceiling = money (n.mul (max_of a.account.balance nought) a.max_margin_fraction) in
          if not_positive a.account.balance
          then ok (reject nonpositive_balance a')
          else if n.lt ceiling margin
          then ok (reject insufficient_margin a')
          else execute trade v margin a'

  pub after_volume : Volume A → Trade A → Accumulator A → Result (Outcome × Accumulator A)
  unfolding with_volume reject
  after_volume (no_volume reason) trade a = ok (reject reason a)
  after_volume (volume v) trade a = with_volume trade v a

  pub observe : Accumulator A → Trade A → Result (Outcome × Accumulator A)
  unfolding volume_of after_volume
  observe a trade = do
    let a' = record a {
      source_count = a.source_count + 1;
      observed_price_pnl = n.add a.observed_price_pnl trade.net_pnl_price;
    }
    v ← volume_of a.sizing a' trade
    after_volume v trade a'

  -- `build_path`
  pub build_path : List (Trade A) → Accumulator A → Result (List Outcome × Accumulator A)
  unfolding observe
  build_path [] a = ok ([], a)
  build_path (trade ∷ rest) a = do
    (outcome, a') ← observe a trade
    (outcomes, last) ← build_path rest a'
    ok (outcome ∷ outcomes, last)

-- `status` of the finished run
pub is_completed : {A : Type 0} → Accumulator A → Bool
is_completed a = elim a.rejected [ zero ↦ true | suc k ↦ false ]
