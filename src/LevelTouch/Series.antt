-- ===== src/LevelTouch/Series.antt =====
-- The lines that services/research/app/level_touch.py measures against: `_atr_series`,
-- `level_series` and `trend_regime`, one value for each bar. A loop over an index that reads the list at
-- fixed distances behind it is a recursion over the list and its tails.
pub mod Aligned
pub mod Line
use arkana.Base.{
  ℕ, zero, suc, ◌+◌, ◌-◌, ◌^◌, Bool, true, false, Option, none, some, List, [], ◌∷◌, ◌++◌, map,
  foldl, ltb, leb, length, take, drop, get_elem?, Number, nought, if◌then◌else◌,
}
use arkana.Market.{Bar}
use arkana.Indicators.{Method, warmup_bars, true_range}
use arkana.LevelTouch.{Regime, naik, turun, datar}

abbrev pub nones : {B : Type 0} → ℕ → List (Option B)
nones zero = []
nones (suc k) = none ∷ nones k

module _ {A : Type 0} ⦃n : Number A⦄ where
  -- `running += xs[index] - xs[index - period]; values[index] = running / period`, over the items that
  -- come in and those that go out.
  pub slide : ℕ → A → List A → List A → List (Option A)
  slide period running (new ∷ news) (old ∷ olds) =
      let running' = n.add running (n.sub new old) in
      some (n.div running' (n.of_ℕ period)) ∷ slide period running' news olds
  slide period running _ _ = []

  -- The true ranges of the bars after the first.
  pub ranges_of : List (Bar A) → List A
  ranges_of [] = []
  ranges_of (a ∷ []) = []
  ranges_of (a ∷ b ∷ rest) = true_range b a ∷ ranges_of (b ∷ rest)

  unfoldable pub atr_series : List (Bar A) → ℕ → List (Option A)
  unfolding slide ranges_of
  atr_series bars period =
      let ranges = ranges_of bars in
      let running = n.sum (take period ranges) in
      if leb (length bars) period
      then nones (length bars)
      else nones period
        ++ (some (n.div running (n.of_ℕ period)) ∷ slide period running (drop period ranges) ranges)

  pub sma_series : List A → ℕ → List (Option A)
  unfolding slide
  sma_series closes period =
      let running = n.sum (take period closes) in
      if ltb (length closes) period
      then nones (length closes)
      else nones (period - 1)
        ++ (some (n.div running (n.of_ℕ period)) ∷ slide period running (drop period closes) closes)

  -- `keep ** tail`
  pub power : A → ℕ → A
  power a zero = n.of_ℕ 1
  power a (suc k) = n.mul (power a k) a

  -- The loop of the windowed average: the closes that come in, those that pass from the tail to the
  -- seed, and those that leave the seed.
  pub ema_slide : ℕ → A → A → A → A → A → List A → List A → List A → List (Option A)
  ema_slide period alpha keep decay seed_sum geometric (new ∷ news) (middle ∷ middles)
        (old ∷ olds) =
      let seed_sum' = n.add seed_sum (n.sub middle old) in
      let geometric' =
        n.sub (n.add (n.mul alpha new) (n.mul keep geometric)) (n.mul (n.mul alpha decay) middle) in
      some (n.add (n.mul (n.div seed_sum' (n.of_ℕ period)) decay) geometric')
      ∷ ema_slide period alpha keep decay seed_sum' geometric' news middles olds
  ema_slide period alpha keep decay seed_sum geometric _ _ _ = []

  pub ema_series : List A → ℕ → List (Option A)
  unfolding power ema_slide
  ema_series closes period =
      let span = warmup_bars period in
      let tail = span - period in
      let alpha = n.div (n.of_ℕ 2) (n.of_ℕ (period + 1)) in
      let keep = n.sub (n.of_ℕ 1) alpha in
      let decay = power keep tail in
      let seed_sum = n.sum (take period closes) in
      let geometric =
        foldl (λ g c. n.add (n.mul g keep) (n.mul alpha c)) nought
          (take tail (drop period closes)) in
      if ltb (length closes) span
      then nones (length closes)
      else nones (span - 1)
        ++ (some (n.add (n.mul (n.div seed_sum (n.of_ℕ period)) decay) geometric)
            ∷ ema_slide period alpha keep decay seed_sum geometric (drop span closes)
                (drop period closes) closes)

  unfoldable pub level_series : List (Bar A) → Method → ℕ → List (Option A)
  unfolding sma_series ema_series
  level_series bars Method.sma period = sma_series (map (λ b. b.close) bars) period
  level_series bars Method.ema period = ema_series (map (λ b. b.close) bars) period

  abbrev pub level_at : List (Option A) → ℕ → Option A
  level_at levels index = elim (get_elem? levels index) [ none ↦ none | some level ↦ level ]

  -- The slope in percent of two levels, the earlier one first.
  pub regime_between : A → A → A → Option Regime
  regime_between threshold earlier level =
      let slope = n.mul (n.div (n.sub level earlier) earlier) (n.of_ℕ 100) in
      if n.eq earlier nought
      then none
      else some (
          if n.lt threshold slope
          then naik
          else if n.lt slope (n.neg threshold)
          then turun
          else datar)

  unfoldable pub trend_regime : List (Option A) → ℕ → ℕ → A → Option Regime
  unfolding regime_between
  trend_regime levels index lookback threshold =
      if ltb index lookback then none else elim (level_at levels index) [
        | none ↦ none
        | some level ↦ elim (level_at levels (index - lookback)) [
          | none ↦ none
          | some earlier ↦ regime_between threshold earlier level
        ]
      ]
