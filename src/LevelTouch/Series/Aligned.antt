-- ===== src/LevelTouch/Series/Aligned.antt =====
-- The series have one value for each bar.
use arkana.Base.{
  ℕ, zero, suc, ◌+◌, ◌-◌, ◌≤◌, ◌≡◌, refl, ap, ◌∙◌, some, List, [], ◌∷◌, map, arith, ltb, length,
  length-append, length-drop, drop, take, Number, Bool-cases, inl, inr, nought, foldl,
}
use arkana.Market.{Bar}
use arkana.Indicators.{Method, warmup_bars}
use arkana.Indicators.Window.{length-map, le-warmup_bars}
use arkana.LevelTouch.Series.{nones, slide, sma_series, ema_slide, ema_series, level_series, power}

length-nones : (B : Type 0) (k : ℕ) → length (nones {B = B} k) ≡ k
length-nones B zero = refl
length-nones B (suc k) = ap suc (length-nones B k)

module _ {A : Type 0} ⦃n : Number A⦄ where
  length-slide :
      (period : ℕ) (running : A) (news olds : List A)
      → length news ≤ length olds
      → length (slide period running news olds) ≡ length news
  unfolding slide
  length-slide period running [] olds h = omega arith
  length-slide period running (new ∷ news) [] h = absurd (omega (arith, h))
  length-slide period running (new ∷ news) (old ∷ olds) h =
      ap suc (length-slide period (n.add running (n.sub new old)) news olds (omega arith))

  length-ema_slide :
      (period : ℕ) (alpha keep decay seed_sum geometric : A) (news middles olds : List A)
      → length news ≤ length middles
      → length middles ≤ length olds
      → length (ema_slide period alpha keep decay seed_sum geometric news middles olds)
        ≡ length news
  unfolding ema_slide
  length-ema_slide period alpha keep decay seed_sum geometric [] middles olds h i = omega arith
  length-ema_slide period alpha keep decay seed_sum geometric (new ∷ news) [] olds h i =
      absurd (omega (arith, h))
  length-ema_slide period alpha keep decay seed_sum geometric (new ∷ news) (m ∷ middles) [] h i =
      absurd (omega (arith, i))
  length-ema_slide period alpha keep decay seed_sum geometric (new ∷ news) (m ∷ middles)
        (old ∷ olds) h i =
      ap suc (
        length-ema_slide period alpha keep decay (n.add seed_sum (n.sub m old))
          (n.sub (n.add (n.mul alpha new) (n.mul keep geometric)) (n.mul (n.mul alpha decay) m))
          news middles olds (omega arith) (omega arith))

  length-sma_series :
      (closes : List A) (period : ℕ)
      → 1 ≤ period
      → length (sma_series closes period) ≡ length closes
  unfolding sma_series
  length-sma_series closes period h = elim (Bool-cases (ltb (length closes) period)) [
    | inl short ↦ rw short (length-nones A (length closes))
    | inr enough ↦
        let running = n.sum (take period closes) in
        let rest = slide period running (drop period closes) closes in
        let len =
          length-slide period running (drop period closes) closes
            (omega (arith, length-drop period closes)) in
        rw enough (
          ground (
            arith,
            length-append (nones {B = A} (period - 1))
                (some (n.div running (n.of_ℕ period)) ∷ rest),
            length-nones A (period - 1),
            len,
            length-drop period closes,
          ))
  ]

  length-ema_series :
      (closes : List A) (period : ℕ)
      → 1 ≤ period
      → length (ema_series closes period) ≡ length closes
  unfolding ema_series
  length-ema_series closes period h =
      let span = warmup_bars period in
      let tail = span - period in
      let alpha = n.div (n.of_ℕ 2) (n.of_ℕ (period + 1)) in
      let keep = n.sub (n.of_ℕ 1) alpha in
      let decay = power keep tail in
      let seed_sum = n.sum (take period closes) in
      let geometric =
        foldl (λ g c. n.add (n.mul g keep) (n.mul alpha c)) nought
          (take tail (drop period closes)) in
      elim (Bool-cases (ltb (length closes) span)) [
        | inl short ↦ rw short (length-nones A (length closes))
        | inr enough ↦
            let rest =
              ema_slide period alpha keep decay seed_sum geometric (drop span closes)
                (drop period closes) closes in
            let first = some (n.add (n.mul (n.div seed_sum (n.of_ℕ period)) decay) geometric) in
            let longer = le-warmup_bars period in
            let len =
              length-ema_slide period alpha keep decay seed_sum geometric (drop span closes)
                (drop period closes) closes
                (omega (arith, length-drop period closes, length-drop span closes))
                (omega (arith, length-drop period closes)) in
            rw enough (
              ground (
                arith,
                length-append (nones {B = A} (span - 1)) (first ∷ rest),
                length-nones A (span - 1),
                len,
                length-drop span closes,
              ))
      ]

  -- A line has a place for each bar.
  pub length-level_series :
      (bars : List (Bar A)) (method : Method) (period : ℕ)
      → 1 ≤ period
      → length (level_series bars method period) ≡ length bars
  unfolding level_series
  length-level_series bars Method.sma period h =
      length-sma_series (map (λ b. b.close) bars) period h ∙ length-map (λ b. b.close) bars
  length-level_series bars Method.ema period h =
      length-ema_series (map (λ b. b.close) bars) period h ∙ length-map (λ b. b.close) bars
