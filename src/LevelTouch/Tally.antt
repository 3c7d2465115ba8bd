-- ===== src/LevelTouch/Tally.antt =====
-- `_Tally`, `_median` and `respect_rates` of services/research/app/level_touch.py.
pub mod Counts
use arkana.Base.{
  ℕ, zero, suc, ◌+◌, ◌-◌, ◌/◌, ◌%◌, ◌≡◌, Bool, true, false, Option, none, some, List, [], ◌∷◌, ◌++◌,
  map, leb, ◌==◌, length, get_elem?, Number, fmean, if◌then◌else◌,
}
use arkana.LevelTouch.{
  Verdict, target, stop, timeout, data_end, Event, bounce_from_above, break_down, bounce_from_below,
  break_up,
}

pub record Tally : Type 0 where
  pub target : ℕ
  pub stop : ℕ
  pub timeout : ℕ
  pub data_end : ℕ
  pub bars_to_target : List ℕ
  pub bars_to_stop : List ℕ

abbrev pub new_tally : Tally
new_tally = record {
  target = 0;
  stop = 0;
  timeout = 0;
  data_end = 0;
  bars_to_target = [];
  bars_to_stop = [];
}

unfoldable pub add : Tally → Verdict → ℕ → Tally
add t Verdict.target steps = record t {
  target = t.target + 1;
  bars_to_target = t.bars_to_target ++ (steps ∷ []);
}
add t Verdict.stop steps = record t {
  stop = t.stop + 1;
  bars_to_stop = t.bars_to_stop ++ (steps ∷ []);
}
add t Verdict.data_end steps = record t { data_end = t.data_end + 1 }
add t Verdict.timeout steps = record t { timeout = t.timeout + 1 }

-- Python's `sorted` on integers.
pub insert_sorted : ℕ → List ℕ → List ℕ
insert_sorted a [] = a ∷ []
insert_sorted a (b ∷ rest) = if leb a b then a ∷ b ∷ rest else b ∷ insert_sorted a rest

pub sorted : List ℕ → List ℕ
unfolding insert_sorted
sorted [] = []
sorted (a ∷ rest) = insert_sorted a (sorted rest)

pub record Timing (A : Type 0) : Type 0 where
  pub median_bars_to_target : Option A
  pub median_bars_to_stop : Option A
  pub mean_bars_to_target : Option A

pub record Reading (A : Type 0) : Type 0 where
  pub events : ℕ
  pub target_first : ℕ
  pub stop_first : ℕ
  pub unresolved : ℕ
  pub beyond_data : ℕ
  pub target_rate : Option A
  pub target_rate_of_resolved : Option A
  pub timing : Option (Timing A)

pub record Respect (A : Type 0) : Type 0 where
  pub touches : ℕ
  pub bounced : ℕ
  pub broke : ℕ
  pub respect_rate : Option A

module _ {A : Type 0} ⦃n : Number A⦄ where
  -- `a / b if b else None` on integers
  abbrev pub ratio : ℕ → ℕ → Option A
  ratio a b = if b == 0 then none else some (n.div (n.of_ℕ a) (n.of_ℕ b))

  -- The two middle items are there for a list that is not empty; `none` also stands for it.
  abbrev pair_mean : Option ℕ → Option ℕ → Option A
  pair_mean (some a) (some b) = some (n.div (n.of_ℕ (a + b)) (n.of_ℕ 2))
  pair_mean _ _ = none

  pub median : List ℕ → Option A
  unfolding sorted
  median [] = none
  median (v ∷ values) =
      let ordered = sorted (v ∷ values) in
      let middle = length ordered / 2 in
      if length ordered % 2 == 1
      then elim (get_elem? ordered middle) [ none ↦ none | some a ↦ some (n.of_ℕ a) ]
      else pair_mean (get_elem? ordered (middle - 1)) (get_elem? ordered middle)

  unfoldable pub read : Tally → Bool → Reading A
  unfolding median
  read t timing =
      let total = t.target + t.stop + t.timeout in
      let resolved = t.target + t.stop in
      record {
        events = total;
        target_first = t.target;
        stop_first = t.stop;
        unresolved = t.timeout;
        beyond_data = t.data_end;
        target_rate = ratio t.target total;
        target_rate_of_resolved = ratio t.target resolved;
        timing =
            if timing
            then some (record {
              median_bars_to_target = median t.bars_to_target;
              median_bars_to_stop = median t.bars_to_stop;
              mean_bars_to_target =
                  if length t.bars_to_target == 0
                  then none
                  else some (fmean (map n.of_ℕ t.bars_to_target) (length t.bars_to_target));
            })
            else none;
      }

  -- The inner function `rate` of `respect_rates`, over the counts of two events.
  unfoldable pub rate : (Event → ℕ) → Event → Event → Respect A
  rate touches bounce through =
      let held = touches bounce in
      let crossed = touches through in
      let total = held + crossed in
      record { touches = total; bounced = held; broke = crossed; respect_rate = ratio held total }

  -- The rates for "BUY" and for "SELL".
  unfoldable pub respect_rates : (Event → ℕ) → Respect A × Respect A
  unfolding rate
  respect_rates touches =
      (rate touches bounce_from_above break_down, rate touches bounce_from_below break_up)
