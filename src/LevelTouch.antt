-- ===== src/LevelTouch.antt =====
-- services/research/app/level_touch.py: what happens after price touches a line. `classify` names the
-- touch, `resolve` follows the trade that it would have been.
pub mod Outcome
pub mod Tally
pub mod Baseline
pub mod Series
pub mod Scan
pub mod Request
pub mod Measure
pub mod Record
mod Examples
use arkana.Base.{
  ℕ, zero, suc, ◌+◌, ◌≡◌, Bool, true, false, ◌&&◌, ◌||◌, Option, none, some, List, [], ◌∷◌, map,
  Result, ok, raised, ◌>>=◌, leb, ltb, ◌==◌, drop, length, String, Number, nought, if◌then◌else◌,
  Dict, put, nat_key,
}
use arkana.Market.{Bar}

pub data Event : Type 0 where
  bounce_from_above break_down bounce_from_below break_up : Event

pub data Verdict : Type 0 where
  target stop timeout data_end : Verdict

pub data Regime : Type 0 where
  naik datar turun : Regime

abbrev pub no_limit : ℕ
no_limit = 0

abbrev pub no_limit_ceiling : ℕ
no_limit_ceiling = 2000

-- `event in LONG_EVENTS`
pub is_long_event : Event → Bool
is_long_event bounce_from_above = true
is_long_event break_up = true
is_long_event break_down = false
is_long_event bounce_from_below = false

-- What the forward walk knows when it ends.
pub record Walk : Type 0 where
  pub decided : Option Verdict
  pub decided_after : ℕ
  pub walked : ℕ

-- `NO_LIMIT_CEILING if value == NO_LIMIT else value`
pub limit_of : ℕ → ℕ
limit_of value = if value == no_limit then no_limit_ceiling else value

-- `max(limits)` of a list that is not empty.
pub maximum : ℕ → List ℕ → ℕ
maximum a [] = a
maximum a (b ∷ rest) = maximum (if ltb a b then b else a) rest

-- The verdict of one bar: the stop wins where both are hit.
pub verdict_of : Bool × Bool → Option Verdict
verdict_of (true, _) = some stop
verdict_of (false, true) = some target
verdict_of (false, false) = none

module _ {A : Type 0} ⦃n : Number A⦄ where
  pub classify : Bar A → A → A → Option Event
  classify bar level previous_close =
      if n.le bar.low level && n.le level bar.high
      then (if n.lt level previous_close
          then some (if n.lt level bar.close then bounce_from_above else break_down)
          else if n.lt previous_close level
          then some (if n.lt bar.close level then bounce_from_below else break_up)
          else none)
      else none

  -- `stop_hit, target_hit` on one bar
  pub touches : Bool → A → A → Bar A → Bool × Bool
  touches true stop_price target_price bar = (n.le bar.low stop_price, n.le target_price bar.high)
  touches false stop_price target_price bar = (n.le stop_price bar.high, n.le bar.low target_price)

  -- `for step in range(0, longest + 1)`: the rounds left, the step, and the bars from the step's on.
  pub walk : Bool → A → A → ℕ → ℕ → ℕ → List (Bar A) → Walk
  unfolding touches verdict_of
  walk long stop_price target_price zero step walked bars = record {
    decided = none;
    decided_after = 0;
    walked = walked;
  }
  walk long stop_price target_price (suc rounds) step walked [] = record {
    decided = none;
    decided_after = 0;
    walked = walked;
  }
  walk long stop_price target_price (suc rounds) step walked (bar ∷ rest) =
      elim (verdict_of (touches long stop_price target_price bar)) [
        | some v ↦ record { decided = some v; decided_after = step; walked = step }
        | none ↦ walk long stop_price target_price rounds (step + 1) step rest
      ]

-- The answer for one timeout, once the walk is over.
pub answer : Walk → ℕ → Verdict × ℕ
answer w limit = elim w.decided [
  | none ↦ if ltb w.walked limit then (data_end, w.walked) else (timeout, limit)
  | some v ↦
      if leb w.decided_after limit
      then (v, w.decided_after)
      else if ltb w.walked limit
      then (data_end, w.walked)
      else (timeout, limit)
]

-- `for timeout, limit in zip(timeouts, limits)`
pub answers : Walk → List ℕ → Dict ℕ (Verdict × ℕ) → Dict ℕ (Verdict × ℕ)
answers w [] outcome = outcome
answers w (value ∷ rest) outcome = answers w rest (put value (answer w (limit_of value)) outcome)

module _ {A : Type 0} ⦃n : Number A⦄ where
  -- The entry price is an argument that the body does not read.
  pub resolve : List (Bar A) → ℕ → A → A → A → Bool → List ℕ → Result (Dict ℕ (Verdict × ℕ))
  unfolding answers answer walk limit_of maximum
  resolve bars entry_index entry stop_price target_price long [] =
      raised "max() arg is an empty sequence"
  resolve bars entry_index entry stop_price target_price long (value ∷ rest) =
      let longest = maximum (limit_of value) (map limit_of rest) in
      let w = walk long stop_price target_price (longest + 1) 0 0 (drop entry_index bars) in
      ok (answers w (value ∷ rest) [])
