-- ===== src/LevelTouch/Series/Line.antt =====
-- The lines, index by index, as the loops of the source compute them.
use arkana.Base.{
  ℕ, zero, suc, ◌+◌, ◌-◌, ◌≤◌, ◌<◌, ◌≡◌, refl, ap, ◌∙◌, ◌&&◌, Option, none, some, List, [], ◌∷◌,
  ◌++◌, map, foldl, ltb, leb, length, take, drop, Number, nought, if◌then◌else◌, arith, Bool-cases,
  inl, inr,
}
use arkana.Market.{Bar}
use arkana.Indicators.{Method, warmup_bars}
use arkana.Indicators.Window.{length-map, le-warmup_bars}
use arkana.LevelTouch.Series.{
  nones, slide, sma_series, ema_slide, ema_series, level_series, power, level_at,
}
use arkana.LevelTouch.Series.Aligned.{length-level_series}

-- The bars that an average needs before it has a value.
abbrev pub bars_needed : Method → ℕ → ℕ
bars_needed Method.sma period = period
bars_needed Method.ema period = warmup_bars period

module _ {A : Type 0} ⦃n : Number A⦄ where
  -- A line with values from `first` on, up to `count` indices.
  abbrev pub line : ℕ → ℕ → (ℕ → A) → ℕ → Option A
  line first count value i = if leb first i && ltb i count then some (value (i - first)) else none

  level_at-nones : (k i : ℕ) → level_at (nones {B = A} k) i ≡ none
  level_at-nones zero i = refl
  level_at-nones (suc k) zero = refl
  level_at-nones (suc k) (suc i) = level_at-nones k i

  -- A prefix of `None`, and a line after it.
  level_at-append :
      (k count : ℕ) (value : ℕ → A) (rest : List (Option A))
      → ((j : ℕ) → level_at rest j ≡ (if ltb (k + j) count then some (value j) else none))
      → (i : ℕ) → level_at (nones k ++ rest) i ≡ line k count value i
  level_at-append zero count value rest h i =
      let whole : i - 0 ≡ i = omega arith in rw whole (ground (arith, h i))
  level_at-append (suc k) count value rest h zero = ground arith
  level_at-append (suc k) count value rest h (suc i) =
      let shift : suc i - suc k ≡ i - k = omega arith in
      let before = level_at-append k (count - 1) value rest (λ j. ground (arith, h j)) i in
      rw shift (ground (arith, before))

  -- `xs[i]`, for an index that is there
  abbrev pub item : List A → ℕ → A
  item [] i = nought
  item (x ∷ xs) zero = x
  item (x ∷ xs) (suc i) = item xs i

  drop-item : (xs : List A) (i : ℕ) → i < length xs → drop i xs ≡ item xs i ∷ drop (suc i) xs
  drop-item [] i h = absurd (omega (arith, h))
  drop-item (x ∷ xs) zero h = refl
  drop-item (x ∷ xs) (suc i) h = drop-item xs i (omega arith)

  drop-beyond : (xs : List A) (i : ℕ) → length xs ≤ i → drop i xs ≡ []
  drop-beyond [] zero h = refl
  drop-beyond [] (suc i) h = refl
  drop-beyond (x ∷ xs) zero h = absurd (omega (arith, h))
  drop-beyond (x ∷ xs) (suc i) h = drop-beyond xs i (omega arith)

  module _ (closes : List A) (period : ℕ) where
    -- `running` of the simple average after `k` rounds of its loop.
    abbrev pub window : ℕ → A
    window zero = n.sum (take period closes)
    window (suc k) = n.add (window k) (n.sub (item closes (k + period)) (item closes k))

    level_at-slide :
        (k j : ℕ)
        → level_at (slide period (window k) (drop (k + period) closes) (drop k closes)) j ≡ (
            if ltb (k + period + j) (length closes)
            then some (n.div (window (suc (k + j))) (n.of_ℕ period))
            else none)
    unfolding slide
    level_at-slide k zero = elim (Bool-cases (ltb (k + period) (length closes))) [
      | inl inside ↦
          let new = drop-item closes (k + period) (ground arith) in
          let old = drop-item closes k (ground arith) in
          let here : k + period + 0 ≡ k + period = omega arith in
          let same : k + 0 ≡ k = omega arith in rw (new, old, here, same, inside) refl
      | inr outside ↦
          let beyond = drop-beyond closes (k + period) (ground arith) in
          rw beyond (ground (arith, outside))
    ]
    level_at-slide k (suc j) = elim (Bool-cases (ltb (k + period) (length closes))) [
      | inl inside ↦
          let new = drop-item closes (k + period) (ground arith) in
          let old = drop-item closes k (ground arith) in
          let next : suc k + period ≡ suc (k + period) = omega arith in
          let index : suc (k + period) + j ≡ k + period + suc j = omega arith in
          let to : suc k + j ≡ k + suc j = omega arith in
          rw (new, old) (rw (next, index, to) at (level_at-slide (suc k) j))
      | inr outside ↦
          let beyond = drop-beyond closes (k + period) (ground arith) in
          rw beyond (ground (arith, outside))
    ]

    abbrev pub sma_value : ℕ → A
    sma_value k = n.div (window k) (n.of_ℕ period)

    sma_rest :
        (j : ℕ)
        → 1 ≤ period
        → period ≤ length closes
        → level_at (some (sma_value 0) ∷ slide period (window 0) (drop period closes) closes) j
          ≡ (if ltb (period - 1 + j) (length closes) then some (sma_value j) else none)
    sma_rest zero h enough = ground arith
    sma_rest (suc j) h enough =
        let from : 0 + period ≡ period = omega arith in
        let index : period + j ≡ period - 1 + suc j = omega (arith, h) in
        let to : 0 + j ≡ j = omega arith in rw (from, index, to) at (level_at-slide 0 j)

    level_at-sma_series :
        (i : ℕ)
        → 1 ≤ period
        → level_at (sma_series closes period) i ≡ line (period - 1) (length closes) sma_value i
    unfolding sma_series
    level_at-sma_series i h = elim (Bool-cases (ltb (length closes) period)) [
      | inl short ↦ rw short (level_at-nones (length closes) i ∙ ground arith)
      | inr enough ↦ rw enough (
          level_at-append (period - 1) (length closes) sma_value _
            (λ j. sma_rest j h (ground arith)) i)
    ]

    -- The two parts of the exponential average after `k` rounds of its loop.
    abbrev pub seed : ℕ → A
    seed zero = n.sum (take period closes)
    seed (suc k) = n.add (seed k) (n.sub (item closes (k + period)) (item closes k))

    module _ (span : ℕ) (alpha keep decay first : A) where
      abbrev pub geometric : ℕ → A
      geometric zero = first
      geometric (suc k) =
          n.sub (n.add (n.mul alpha (item closes (k + span))) (n.mul keep (geometric k)))
            (n.mul (n.mul alpha decay) (item closes (k + period)))

      abbrev ema_value : ℕ → A
      ema_value k = n.add (n.mul (n.div (seed k) (n.of_ℕ period)) decay) (geometric k)

      level_at-ema_slide :
          (k j : ℕ)
          → period ≤ span
          → level_at
              (ema_slide period alpha keep decay
                (seed k)
                (geometric k)
                (drop (k + span) closes)
                (drop (k + period) closes)
                (drop k closes))
              j
            ≡ (if ltb (k + span + j) (length closes) then some (ema_value (suc (k + j))) else none)
      unfolding ema_slide
      level_at-ema_slide k zero h = elim (Bool-cases (ltb (k + span) (length closes))) [
        | inl inside ↦
            let new = drop-item closes (k + span) (ground arith) in
            let middle = drop-item closes (k + period) (ground arith) in
            let old = drop-item closes k (ground arith) in
            let here : k + span + 0 ≡ k + span = omega arith in
            let same : k + 0 ≡ k = omega arith in rw (new, middle, old, here, same, inside) refl
        | inr outside ↦
            let beyond = drop-beyond closes (k + span) (ground arith) in
            rw beyond (ground (arith, outside))
      ]
      level_at-ema_slide k (suc j) h = elim (Bool-cases (ltb (k + span) (length closes))) [
        | inl inside ↦
            let new = drop-item closes (k + span) (ground arith) in
            let middle = drop-item closes (k + period) (ground arith) in
            let old = drop-item closes k (ground arith) in
            let next : suc k + span ≡ suc (k + span) = omega arith in
            let after : suc k + period ≡ suc (k + period) = omega arith in
            let index : suc (k + span) + j ≡ k + span + suc j = omega arith in
            let to : suc k + j ≡ k + suc j = omega arith in
            rw (new, middle, old) (rw (next, after, index, to) at (level_at-ema_slide (suc k) j h))
        | inr outside ↦
            let beyond = drop-beyond closes (k + span) (ground arith) in
            rw beyond (ground (arith, outside))
      ]

      ema_rest :
          (j : ℕ)
          → 1 ≤ period
          → period ≤ span
          → span ≤ length closes
          → level_at
              (some (ema_value 0)
                ∷ ema_slide period alpha keep decay
                    (seed 0)
                    (geometric 0)
                    (drop span closes)
                    (drop period closes)
                    closes)
              j
            ≡ (if ltb (span - 1 + j) (length closes) then some (ema_value j) else none)
      ema_rest zero h longer enough = ground arith
      ema_rest (suc j) h longer enough =
          let from : 0 + span ≡ span = omega arith in
          let middle : 0 + period ≡ period = omega arith in
          let index : span + j ≡ span - 1 + suc j = omega (arith, h, longer) in
          let to : 0 + j ≡ j = omega arith in
          rw (from, middle, index, to) at (level_at-ema_slide 0 j longer)

  -- The value that a line has `k` bars after its first: for the simple average, the window's sum over
  -- the period; for the exponential one, what its seed and its geometric part give.
  abbrev pub value_of : List A → Method → ℕ → ℕ → A
  value_of closes Method.sma period = sma_value closes period
  value_of closes Method.ema period =
      let span = warmup_bars period in
      let alpha = n.div (n.of_ℕ 2) (n.of_ℕ (period + 1)) in
      let keep = n.sub (n.of_ℕ 1) alpha in
      ema_value closes period span alpha keep (power keep (span - period)) (
        foldl (λ g c. n.add (n.mul g keep) (n.mul alpha c)) nought
          (take (span - period) (drop period closes)))

  level_at-level_series :
      (bars : List (Bar A)) (method : Method) (period i : ℕ)
      → 1 ≤ period
      → let closes = map (λ (b : Bar A). b.close) bars in
        level_at (level_series bars method period) i
        ≡ line (bars_needed method period - 1) (length closes) (value_of closes method period) i
  unfolding level_series ema_series
  level_at-level_series bars Method.sma period i h =
      level_at-sma_series (map (λ b. b.close) bars) period i h
  level_at-level_series bars Method.ema period i h =
      let closes = map (λ (b : Bar A). b.close) bars in
      let span = warmup_bars period in
      let alpha = n.div (n.of_ℕ 2) (n.of_ℕ (period + 1)) in
      let keep = n.sub (n.of_ℕ 1) alpha in
      let decay = power keep (span - period) in
      let first =
        foldl (λ g c. n.add (n.mul g keep) (n.mul alpha c)) nought
          (take (span - period) (drop period closes)) in
      elim (Bool-cases (ltb (length closes) span)) [
        | inl short ↦ rw short (level_at-nones (length closes) i ∙ ground arith)
        | inr enough ↦ rw enough (
            level_at-append (span - 1) (length closes)
              (ema_value closes period span alpha keep decay first) _
              (λ j.
                ema_rest closes period span alpha keep decay first j h
                  (omega (arith, le-warmup_bars period)) (ground arith))
              i)
      ]

  -- For a positive period, the line has one place for each bar, and at each index what the loop of the
  -- source puts there: `None` before the average has its bars, which are the period for the simple one
  -- and the warm-up for the exponential one; from then on the average's running value, which the
  -- recurrences of `window`, `seed` and `geometric` give from the closes up to that index.
  pub level_series_lem :
      (bars : List (Bar A)) (method : Method) (period : ℕ)
      → 1 ≤ period
      → let closes = map (λ (b : Bar A). b.close) bars in
        (length (level_series bars method period) ≡ length bars)
        × ((i : ℕ)
            → level_at (level_series bars method period) i
              ≡ line
                  (bars_needed method period - 1)
                  (length bars)
                  (value_of closes method period)
                  i)
  level_series_lem bars method period h =
      let closes = map (λ (b : Bar A). b.close) bars in
      (
        length-level_series bars method period h,
        λ i.
            level_at-level_series bars method period i h
            ∙ ap (λ k. line (bars_needed method period - 1) k (value_of closes method period) i)
                (length-map (λ (b : Bar A). b.close) bars),
      )
