-- ===== src/LevelTouch/Measure/Pass.antt =====
-- The pass over the bars raises nothing, counts the touches that the sweep counts, and keeps its tables
-- in step.
use arkana.Base.{
  ℕ, ◌+◌, ◌≡◌, refl, sym, subst, ap, ◌∙◌, Option, none, some, List, [], ◌∷◌, Result, ok, ◌>>=◌,
  String, Number, if◌then◌else◌, Option-cases, inl, inr,
}
use arkana.Market.{Bar}
use arkana.LevelTouch.{Event, Regime, naik, datar, turun, is_long_event, classify}
use arkana.LevelTouch.Outcome.{resolve-case_outcome}
use arkana.LevelTouch.Series.{level_at}
use arkana.LevelTouch.Scan.{Counts, count_touch, count_bar, count_touches, bump}
use arkana.LevelTouch.Request.{Distance, Spec}
use arkana.LevelTouch.Measure.{
  Formats, Touch, Tables, Measured, distance_label, case_distance, tally_outcomes, tally_distance,
  measure_distances, touch_of, see_bar, measure_touch, measure_bar, measure_loop,
}
use arkana.LevelTouch.Measure.Sums.{Balanced, tally_outcomes-Balanced}

-- The tables are in step, and the touches are counted as `c` says.
pub record InStep (m : Measured) (c : Counts) : Type 0 where
  pub balanced : Balanced m.tables
  pub counts : m.touches_by_regime ≡ c
  pub touches : m.touches ≡ c.semua

-- What a part of the pass returns.
abbrev pub Reached : Result Measured → Counts → Type 0
Reached r c = (m : Measured) × (r ≡ ok m) × InStep m c

count_touch-semua :
    (event : Event) (regime : Option Regime) (c : Counts)
    → (count_touch event regime c).semua ≡ bump event c.semua
unfolding count_touch
count_touch-semua event none c = refl
count_touch-semua event (some naik) c = refl
count_touch-semua event (some datar) c = refl
count_touch-semua event (some turun) c = refl

module _ {A : Type 0} ⦃n : Number A⦄ (f : Formats A) (bars : List (Bar A)) (spec : Spec A)
    (first : ℕ) (others : List ℕ) (h : spec.timeouts ≡ first ∷ others) where
  tally_distance-Balanced :
      (touch : Touch) (index : ℕ) (entry : A) (label : String) (distance : A) (t : Tables)
      → Balanced t
      → (t' : Tables) × (tally_distance f bars spec touch index entry label distance t ≡ ok t')
        × Balanced t'
  unfolding tally_distance
  tally_distance-Balanced touch index entry label distance t b =
      let long = is_long_event touch.event in
      let reach = n.mul distance spec.target_multiple in
      let stop = if long then n.sub entry distance else n.add entry distance in
      let target = if long then n.add entry reach else n.sub entry reach in
      let (outcomes, resolved, answered) =
        resolve-case_outcome bars (index + 1) entry stop target long first others in
      rw h (
        subst
          (λ r.
            (t' : Tables) × ((r >>= λ o. ok (tally_outcomes touch label o t)) ≡ ok t')
            × Balanced t')
          (sym resolved)
          (
            tally_outcomes touch label outcomes t,
            refl,
            tally_outcomes-Balanced touch label outcomes t b,
          ))

  skipped_one :
      (m : Measured) (c : Counts)
      → InStep m c
      → InStep (record m { skipped_without_distance = m.skipped_without_distance + 1 }) c
  skipped_one m c s = record { balanced = s.balanced; counts = s.counts; touches = s.touches }

  measure_distances-Reached :
      (touch : Touch) (index : ℕ) (entry : A) (items : List (Distance A)) (m : Measured)
      (c : Counts)
      → InStep m c
      → Reached (measure_distances f bars spec touch index entry items m) c
  unfolding measure_distances
  measure_distances-Reached touch index entry [] m c s = (m, refl, s)
  measure_distances-Reached touch index entry (item ∷ items) m c s =
      elim (Option-cases (case_distance f bars index entry item)) [
        | inl missing ↦
            rw (missing, measure_distances)
              (measure_distances-Reached touch index entry items
                (record m { skipped_without_distance = m.skipped_without_distance + 1 }) c
                (skipped_one m c s))
        | inr (distance, given) ↦
            let (t, tallied, b) =
              tally_distance-Balanced touch index entry (distance_label f item) distance m.tables
                s.balanced in
            rw (given, measure_distances)
              (rw tallied (
                measure_distances-Reached touch index entry items (record m { tables = t }) c
                  (record { balanced = b; counts = s.counts; touches = s.touches })))
      ]

  measure_touch-Reached :
      (index : ℕ) (bar entry_bar : Bar A) (regime : Option Regime) (event : Event) (m : Measured)
      (c : Counts)
      → InStep m c
      → Reached
          (measure_touch f bars spec index bar entry_bar regime event m)
          (count_touch event regime c)
  unfolding measure_touch
  measure_touch-Reached index bar entry_bar regime event m c s =
      let counts = count_touch event regime c in
      measure_distances-Reached (touch_of f bars spec event regime bar) index _ spec.distances _
        counts
        (record {
          balanced = s.balanced;
          counts = ap (count_touch event regime) s.counts;
          touches = ap (bump event) s.touches ∙ sym (count_touch-semua event regime c);
        })

  seen_bar :
      (bar : Bar A) (m : Measured) (c : Counts) → InStep m c → InStep (see_bar f bars spec bar m) c
  unfolding see_bar
  seen_bar bar m c s = record { balanced = s.balanced; counts = s.counts; touches = s.touches }

  measure_bar-Reached :
      (levels : List (Option A)) (index : ℕ) (previous bar next : Bar A) (m : Measured) (c : Counts)
      → InStep m c
      → Reached
          (measure_bar f bars spec levels index previous bar next m)
          (count_bar levels spec.lookback spec.threshold index previous bar c)
  unfolding measure_bar see_bar count_bar
  measure_bar-Reached levels index previous bar next m c s =
      elim (Option-cases (level_at levels index)) [
        | inl missing ↦ rw (missing, measure_bar, count_bar) (m, refl, s)
        | inr (level, found) ↦ elim (Option-cases (classify bar level previous.close)) [
          | inl untouched ↦
              rw (found, untouched, measure_bar, count_bar)
                (see_bar f bars spec bar m, refl, seen_bar bar m c s)
          | inr (event, touched) ↦
              rw (found, touched, measure_bar, count_bar)
                (measure_touch-Reached index bar next _ event (see_bar f bars spec bar m) c
                  (seen_bar bar m c s))
        ]
      ]

  pub measure_loop-Reached :
      (levels : List (Option A)) (index : ℕ) (rest : List (Bar A)) (m : Measured) (c : Counts)
      → InStep m c
      → Reached
          (measure_loop f bars spec levels index rest m)
          (count_touches levels spec.lookback spec.threshold index rest c)
  unfolding measure_loop count_touches
  measure_loop-Reached levels index [] m c s = (m, refl, s)
  measure_loop-Reached levels index (a ∷ []) m c s = (m, refl, s)
  measure_loop-Reached levels index (a ∷ b ∷ []) m c s = (m, refl, s)
  measure_loop-Reached levels index (previous ∷ bar ∷ next ∷ rest) m c s =
      let (m', reached, s') = measure_bar-Reached levels index previous bar next m c s in
      rw reached (measure_loop-Reached levels (index + 1) (bar ∷ next ∷ rest) m' _ s')
