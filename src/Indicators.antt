-- ===== src/Indicators.antt =====
-- The indicators of services/research/app/completed_candle_evaluator.py over a list of closes or bars
-- that ends at the last completed candle. Periods are positive, as strategy_capabilities.py requires.
pub mod Window
use arkana.Base.{
  ℕ, zero, suc, ◌+◌, ◌-◌, ◌*◌, Bool, true, false, Option, none, some, List, [], ◌∷◌, map, foldl,
  ltb, length, take, drop, Number, nought, max_of, abs_of, fmean, if◌then◌else◌,
}
use arkana.Market.{Bar}

pub data Method : Type 0 where
  sma ema : Method

-- Python's `xs[-k:]`, which is the whole list for `k` 0.
abbrev pub suffix : {B : Type 0} → ℕ → List B → List B
suffix zero xs = xs
suffix (suc k) xs = drop (length xs - suc k) xs

-- `max(period + 1, RECURSIVE_WARMUP_MULTIPLE * period)`
pub warmup_bars : ℕ → ℕ
warmup_bars period = if ltb (period + 1) (5 * period) then 5 * period else period + 1

pub record Bands (A : Type 0) : Type 0 where
  pub middle : A
  pub upper : A
  pub lower : A

module _ {A : Type 0} ⦃n : Number A⦄ where
  abbrev pub mean : List A → A
  mean xs = fmean xs (length xs)

  -- One round of the loop over the rest of the window.
  abbrev pub smooth : A → A → A → A
  smooth multiplier value close = n.add value (n.mul multiplier (n.sub close value))

  pub ema_of : List A → ℕ → A
  ema_of window period =
      foldl (smooth (n.div (n.of_ℕ 2) (n.of_ℕ (period + 1)))) (mean (take period window))
        (drop period window)

  pub moving_average : List A → ℕ → Method → Option A
  unfolding ema_of warmup_bars
  moving_average closes period Method.sma =
      if ltb (length closes) period then none else some (mean (suffix period closes))
  moving_average closes period Method.ema =
      let span = warmup_bars period in
      if ltb (length closes) span then none else some (ema_of (suffix span closes) period)

  -- The moves between neighbours of a window: up, and down.
  pub gains : List A → List A
  gains [] = []
  gains (a ∷ []) = []
  gains (a ∷ b ∷ rest) = max_of nought (n.sub b a) ∷ gains (b ∷ rest)

  pub losses : List A → List A
  losses [] = []
  losses (a ∷ []) = []
  losses (a ∷ b ∷ rest) = max_of nought (n.sub a b) ∷ losses (b ∷ rest)

  -- `for gain, loss in zip(...)`
  pub wilder : ℕ → List A → List A → A × A → A × A
  wilder period (gain ∷ up) (loss ∷ down) (average_gain, average_loss) =
      let next =
        λ (average x : A). n.div (n.add (n.mul average (n.of_ℕ (period - 1))) x) (n.of_ℕ period) in
      wilder period up down (next average_gain gain, next average_loss loss)
  wilder period _ _ averages = averages

  pub rsi_of : List A → ℕ → A
  unfolding gains losses wilder
  rsi_of window period =
      let up = gains window in
      let down = losses window in
      let (average_gain, average_loss) =
        wilder period (drop period up) (drop period down)
          (mean (take period up), mean (take period down)) in
      if n.eq average_loss nought
      then (if n.lt nought average_gain then n.of_ℕ 100 else n.of_ℕ 50)
      else n.sub (n.of_ℕ 100)
          (n.div (n.of_ℕ 100) (n.add (n.of_ℕ 1) (n.div average_gain average_loss)))

  pub relative_strength_index : List A → ℕ → Option A
  unfolding rsi_of warmup_bars
  relative_strength_index closes period =
      let span = warmup_bars period + 1 in
      if ltb (length closes) span then none else some (rsi_of (suffix span closes) period)

  -- `pstdev` is `statistics.pstdev`.
  pub bollinger_bands : (List A → A) → List A → ℕ → A → Option (Bands A)
  bollinger_bands pstdev closes period deviations =
      if ltb (length closes) period
      then none
      else (let window = suffix period closes in
          let middle = mean window in
          let spread = n.mul deviations (pstdev window) in
          some
            (record { middle = middle; upper = n.add middle spread; lower = n.sub middle spread }))

  unfoldable pub true_range : Bar A → Bar A → A
  true_range current previous =
      max_of (max_of (n.sub current.high current.low) (abs_of (n.sub current.high previous.close)))
        (abs_of (n.sub current.low previous.close))

  -- `for index in range(len(bars) - period, len(bars))`, over the bars from the first one's previous on.
  pub add_ranges : Bar A → List (Bar A) → A → A
  unfolding true_range
  add_ranges previous [] total = total
  add_ranges previous (current ∷ rest) total =
      add_ranges current rest (n.add total (true_range current previous))

  pub total_range : List (Bar A) → A
  unfolding add_ranges
  total_range [] = nought
  total_range (previous ∷ rest) = add_ranges previous rest nought

  -- `_atr`, for a positive period: Python raises where the period is 0.
  pub average_true_range : List (Bar A) → ℕ → Option A
  unfolding total_range
  average_true_range bars period =
      if ltb (length bars) (period + 1)
      then none
      else some (n.div (total_range (suffix (period + 1) bars)) (n.of_ℕ period))
