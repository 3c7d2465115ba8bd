-- ===== src/LevelTouch/Measure/Rows.antt =====
-- The rows of `measure_bars` of services/research/app/level_touch.py.
pub mod Totals
use arkana.Base.{
  ℕ, ◌+◌, ◌≡◌, ◌↔◌, Bool, true, false, not, ◌&&◌, Option, none, some, List, [], ◌∷◌, ◌++◌, map,
  Result, ok, raised, ◌>>=◌, String, Number, nought, fmean, length, arith, if◌then◌else◌, Dict, Key,
  get, put, nat_key, string_key, codes, codes_le, text_in, str_eq,
}
use arkana.Market.{Bar}
use arkana.LevelTouch.{Event, bounce_from_above, break_down, bounce_from_below, break_up}
use arkana.LevelTouch.Tally.{Tally, read, Reading, Respect, respect_rates}
use arkana.LevelTouch.Baseline.{Baseline, random_baseline}
use arkana.LevelTouch.Series.{atr_series, level_at, level_series}
use arkana.LevelTouch.Request.{Distance, fixed, percent, atr, Spec}
use arkana.LevelTouch.Measure.{
  Formats, Case, pair_key, Measured, nothing_measured, distance_label, measure_loop,
}

abbrev pub same_side : Bool → Bool → Bool
same_side true b = b
same_side false b = not b

pub same_side_iff : (a b : Bool) → (same_side a b ≡ true) ↔ (a ≡ b)
same_side_iff true true = grind arith
same_side_iff true false = grind arith
same_side_iff false true = grind arith
same_side_iff false false = grind arith

instance abbrev pub side_key : Key Bool
side_key = record { same = same_side; same_iff = same_side_iff }

-- `<=` on the lists of texts that `[str(part) for part in item]` gives.
abbrev pub texts_le : List String → List String → Bool
texts_le [] bs = true
texts_le (a ∷ as_) [] = false
texts_le (a ∷ as_) (b ∷ bs) = if str_eq a b then texts_le as_ bs else codes_le (codes a) (codes b)

-- `sorted(source, key=...)`, an insertion sort, which is stable.
pub insert_item : {B : Type 0} → (B → List String) → B → List B → List B
insert_item texts a [] = a ∷ []
insert_item texts a (b ∷ rest) =
    if texts_le (texts a) (texts b) then a ∷ b ∷ rest else b ∷ insert_item texts a rest

pub sort_items : {B : Type 0} → (B → List String) → List B → List B
unfolding insert_item
sort_items texts [] = []
sort_items texts (a ∷ rest) = insert_item texts a (sort_items texts rest)

-- A row, with the year or the month where it has one.
pub record MeasureRow (A P : Type 0) : Type 0 where
  pub case : Case
  pub extra : P
  pub reading : Reading A
  pub break_even_rate : A
  pub edge : Option A
  pub baseline_rate : Option A
  pub baseline_resolved : ℕ
  pub edge_over_baseline : Option A

-- `(label, timeout, long_side)`
abbrev pub ControlKey : Type 0
ControlKey = String × (ℕ × Bool)

-- The keys of the summary have nothing after the case.
abbrev pub without_period : Dict Case Tally → Dict (Case × Unit {0}) Tally
without_period [] = []
without_period ((case, t) ∷ d) = ((case, tt), t) ∷ without_period d

module _ {A : Type 0} ⦃n : Number A⦄ where
  -- `a - b` where both are there
  pub difference : Option A → Option A → Option A
  difference (some a) (some b) = some (n.sub a b)
  difference none b = none
  difference (some a) none = none

  -- `control.get("target_rate")` and `control.get("resolved", 0)`, where `control` may be `{}`
  abbrev pub rate_of : Option (Baseline A) → Option A
  rate_of none = none
  rate_of (some b) = b.target_rate

  abbrev pub resolved_of : Option (Baseline A) → ℕ
  resolved_of none = 0
  resolved_of (some b) = b.resolved

  -- `{**entry, **read, ...}` for one key of the tables.
  pub row_for :
      {P : Type 0} → Dict ControlKey (Baseline A) → A → Bool → (Case × P) × Tally → MeasureRow A P
  unfolding difference
  row_for baseline even timing ((case, extra), tally) =
      let reading = read tally timing in
      let rate = reading.target_rate_of_resolved in
      let (event, (label, (timeout, name))) = case in
      let long = text_in event ("BOUNCE_FROM_ABOVE" ∷ "BREAK_UP" ∷ []) in
      let control = get (label, (timeout, long)) baseline in
      let control_rate = rate_of control in
      record {
        case = case;
        extra = extra;
        reading = reading;
        break_even_rate = even;
        edge = difference rate (some even);
        baseline_rate = control_rate;
        baseline_resolved = resolved_of control;
        edge_over_baseline = difference rate control_rate;
      }

  -- `rows(source, extra, timing=...)`, given the text of the year or the month.
  pub rows :
      {P : Type 0}
      → Dict ControlKey (Baseline A)
      → A
      → Bool
      → ((Case × P) × Tally → List String)
      → Dict (Case × P) Tally
      → List (MeasureRow A P)
  unfolding sort_items row_for
  rows baseline even timing texts source =
      map (row_for baseline even timing) (sort_items texts source)
