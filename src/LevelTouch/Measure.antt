-- ===== src/LevelTouch/Measure.antt =====
-- `measure_bars` of services/research/app/level_touch.py with the helpers that it calls: one pass over
-- the touches fills the tallies of every distance, timeout and regime, and these become rows. What
-- Python and its libraries render or hash is a field of `Formats`.
pub mod Rows
pub mod Whole
pub mod Sums
pub mod Pass
use arkana.Base.{
  ℕ, zero, suc, ◌+◌, ◌≡◌, ◌↔◌, Bool, true, false, not, ◌&&◌, Option, none, some, List, [], ◌∷◌,
  ◌++◌, Result, ok, raised, ◌>>=◌, String, Number, nought, if◌then◌else◌, Dict, Key, get, put,
  nat_key, string_key, append_text, arith,
}
use arkana.Market.{Bar}
use arkana.LevelTouch.{
  Event, bounce_from_above, break_down, bounce_from_below, break_up, Verdict, Regime, naik, datar,
  turun, is_long_event, classify, resolve,
}
use arkana.LevelTouch.Tally.{Tally, new_tally, add}
use arkana.LevelTouch.Series.{atr_series, level_at, trend_regime}
use arkana.LevelTouch.Scan.{Counts, count_touch, no_counts, bump}
use arkana.LevelTouch.Request.{Distance, fixed, percent, atr, Spec}

-- The parts of a date, the renderings `str(int)`, `{int:02d}` and `{float:g}`, and the integer that the
-- digest of a baseline's seed text gives, for a label and a side.
pub record Formats (A : Type 0) : Type 0 where
  pub year_of : ℕ → ℕ
  pub month_of : ℕ → ℕ
  pub show_int : ℕ → String
  pub two_digits : ℕ → String
  pub show_number : A → String
  pub digest : String → Bool → ℕ

-- `(event, label, timeout, name)`
abbrev pub Case : Type 0
Case = String × (String × (ℕ × String))

pub event_name : Event → String
event_name bounce_from_above = "BOUNCE_FROM_ABOVE"
event_name break_down = "BREAK_DOWN"
event_name bounce_from_below = "BOUNCE_FROM_BELOW"
event_name break_up = "BREAK_UP"

pub regime_name : Regime → String
regime_name naik = "NAIK"
regime_name datar = "DATAR"
regime_name turun = "TURUN"

-- `("SEMUA", regime) if regime else ("SEMUA",)`
pub names_of : Option Regime → List String
unfolding regime_name
names_of none = "SEMUA" ∷ []
names_of (some regime) = "SEMUA" ∷ regime_name regime ∷ []

-- Two keys that are compared in turn.
pub pair_iff :
    {K L : Type 0} (k : Key K) (l : Key L) (a b : K × L)
    → ((k.same a.0 b.0 && l.same a.1 b.1) ≡ true) ↔ (a ≡ b)
pair_iff k l (a, b) (c, d) = grind (arith, k.same_iff a c, l.same_iff b d)

instance abbrev pub pair_key : {K L : Type 0} → ⦃k : Key K⦄ → ⦃l : Key L⦄ → Key (K × L)
pair_key ⦃k⦄ ⦃l⦄ = record {
  same = λ a b. k.same a.0 b.0 && l.same a.1 b.1;
  same_iff = pair_iff k l;
}

-- What a `defaultdict(_Tally)` gives for a key.
pub tally_or_new : Option Tally → Tally
tally_or_new none = new_tally
tally_or_new (some t) = t

-- `tallies[key].add(verdict, steps)` on a `defaultdict(_Tally)`
pub tally_into : {K : Type 0} → ⦃k : Key K⦄ → K → Verdict → ℕ → Dict K Tally → Dict K Tally
unfolding add tally_or_new
tally_into key verdict steps tallies =
    put key (add (tally_or_new (get key tallies)) verdict steps) tallies

-- `overall`, `yearly` and `monthly`
pub record Tables : Type 0 where
  pub overall : Dict Case Tally
  pub yearly : Dict (Case × ℕ) Tally
  pub monthly : Dict (Case × String) Tally

-- The names and the variables of one touch that the inner loops read.
pub record Touch : Type 0 where
  pub event : Event
  pub names : List String
  pub year : ℕ
  pub month : String

module _ (touch : Touch) (label : String) where
  pub tally_name : ℕ → Verdict → ℕ → String → Tables → Tables
  unfolding tally_into event_name
  tally_name timeout verdict steps name t =
      let case : Case = (event_name touch.event, (label, (timeout, name))) in
      record {
        overall = tally_into case verdict steps t.overall;
        yearly = tally_into (case, touch.year) verdict steps t.yearly;
        monthly = tally_into (case, touch.month) verdict steps t.monthly;
      }

  -- `for name in regimes`
  pub tally_names : ℕ → Verdict → ℕ → List String → Tables → Tables
  unfolding tally_name
  tally_names timeout verdict steps [] t = t
  tally_names timeout verdict steps (name ∷ names) t =
      tally_names timeout verdict steps names (tally_name timeout verdict steps name t)

  -- `for timeout, (verdict, steps) in outcomes.items()`
  pub tally_outcomes : Dict ℕ (Verdict × ℕ) → Tables → Tables
  unfolding tally_names
  tally_outcomes [] t = t
  tally_outcomes ((timeout, (verdict, steps)) ∷ outcomes) t =
      tally_outcomes outcomes (tally_names timeout verdict steps touch.names t)

-- What the loop over the bars has found.
pub record Measured : Type 0 where
  pub tables : Tables
  pub touches : Event → ℕ
  pub touches_by_regime : Counts
  pub skipped_without_distance : ℕ
  pub first : Option ℕ
  pub last : Option ℕ

abbrev pub nothing_measured : Measured
nothing_measured = record {
  tables = record { overall = []; yearly = []; monthly = [] };
  touches = λ e. 0;
  touches_by_regime = no_counts;
  skipped_without_distance = 0;
  first = none;
  last = none;
}

module _ {A : Type 0} ⦃n : Number A⦄ (f : Formats A) where
  pub distance_label : Distance A → String
  distance_label (fixed value) = append_text "FIXED_" (f.show_number value)
  distance_label (percent value) = append_text "PERCENT_" (f.show_number value)
  distance_label (atr multiple period) =
      append_text "ATR_"
        (append_text (f.show_number multiple) (append_text "x" (f.show_int period)))

  module _ (bars : List (Bar A)) where
    -- The distance at `index`, or none where there is no measured range.
    pub case_distance : ℕ → A → Distance A → Option A
    case_distance index entry (fixed value) = some value
    case_distance index entry (percent value) = some (n.div (n.mul entry value) (n.of_ℕ 100))
    case_distance index entry (atr multiple period) =
        elim (level_at (atr_series bars period) index) [
          | none ↦ none
          | some measured ↦ if n.le measured nought then none else some (n.mul measured multiple)
        ]

    module _ (spec : Spec A) where
      -- The tables after the case of one distance.
      pub tally_distance : Touch → ℕ → A → String → A → Tables → Result Tables
      unfolding tally_outcomes resolve
      tally_distance touch index entry label distance t =
          let long = is_long_event touch.event in
          let reach = n.mul distance spec.target_multiple in
          let stop = if long then n.sub entry distance else n.add entry distance in
          let target = if long then n.add entry reach else n.sub entry reach in
          resolve bars (index + 1) entry stop target long spec.timeouts >>= λ outcomes.
          ok (tally_outcomes touch label outcomes t)

      -- `for item, label in zip(spec["distances"], labels)`
      pub measure_distances : Touch → ℕ → A → List (Distance A) → Measured → Result Measured
      unfolding tally_distance case_distance distance_label
      measure_distances touch index entry [] m = ok m
      measure_distances touch index entry (item ∷ items) m = elim (case_distance index entry item) [
        | none ↦
            measure_distances touch index entry items
              (record m { skipped_without_distance = m.skipped_without_distance + 1 })
        | some distance ↦
            tally_distance touch index entry (distance_label item) distance m.tables >>= λ tables.
            measure_distances touch index entry items (record m { tables = tables })
      ]

      pub touch_of : Event → Option Regime → Bar A → Touch
      unfolding names_of
      touch_of event regime bar = record {
        event = event;
        names = names_of regime;
        year = f.year_of bar.timestamp;
        month =
            append_text (f.show_int (f.year_of bar.timestamp))
              (append_text "-" (f.two_digits (f.month_of bar.timestamp)));
      }

      pub measure_touch : ℕ → Bar A → Bar A → Option Regime → Event → Measured → Result Measured
      unfolding measure_distances touch_of
      measure_touch index bar entry_bar regime event m =
          let spread = spec.spread_price in
          let entry =
            n.add entry_bar.open_price (if is_long_event event then spread else n.neg spread) in
          measure_distances (touch_of event regime bar) index entry spec.distances (record m {
            touches = bump event m.touches;
            touches_by_regime = count_touch event regime m.touches_by_regime;
          })

      -- The first bar that has a level, and the last.
      pub see_bar : Bar A → Measured → Measured
      see_bar bar m = record m {
        first = elim m.first [ none ↦ some bar.timestamp | some t ↦ some t ];
        last = some bar.timestamp;
      }

      pub measure_bar : List (Option A) → ℕ → Bar A → Bar A → Bar A → Measured → Result Measured
      unfolding measure_touch see_bar
      measure_bar levels index previous bar entry_bar m = elim (level_at levels index) [
        | none ↦ ok m
        | some level ↦ elim (classify bar level previous.close) [
          | none ↦ ok (see_bar bar m)
          | some event ↦
              measure_touch index bar entry_bar
                (trend_regime levels index spec.lookback spec.threshold) event (see_bar bar m)
        ]
      ]

      -- `for index in range(1, len(bars) - 1)`, over the bars from `index - 1` on.
      unfoldable pub measure_loop : List (Option A) → ℕ → List (Bar A) → Measured → Result Measured
      unfolding measure_bar
      measure_loop levels index (previous ∷ bar ∷ next ∷ rest) m =
          measure_bar levels index previous bar next m
          >>= measure_loop levels (index + 1) (bar ∷ next ∷ rest)
      measure_loop levels index _ m = ok m
