-- ===== src/Evaluator/Lookbacks/Enough.antt =====
-- The lookbacks are enough: a rule that sees only that many of the last candles has the same truth.
use arkana.Base.{
  ℕ, ◌≤◌, ◌<◌, ◌≡◌, refl, sym, ap, ◌∙◌, Bool, false, not, ◌&&◌, Option, none, some, List, [], ◌∷◌,
  Result, ok, ◌>>=◌, arith, ltb, Number, Dict, get, get-put, Bool-cases, inl, inr, all_of, any_of,
  if◌then◌else◌,
}
use arkana.Market.{Bar}
use arkana.Indicators.{Method, suffix, moving_average, bollinger_bands}
use arkana.Indicators.Window.{
  suffix-suffix, ltb-suffix, suffix-map, le-warmup_bars, warmup_bars-le, moving_average-suffix,
  relative_strength_index-suffix, bollinger_bands-suffix, span_of,
}
use arkana.Evaluator.{
  Timeframe, bullish, bearish, Block, always, candle_direction, two_bar_reversal, sma_relation,
  ema_relation, price_vs_ma, rsi_threshold, bollinger_relation, minimum_range, Rule, block,
  all_rules, any_rules, not_rule, Rules, no_rules, more_rules, timeframe_of, block_truth,
  rule_truth, rules_truth, candle_truth, reversal_truth, sma_truth, price_truth, band_truth,
  closes_of, points, Relation, last_one, last_two,
}
use arkana.Evaluator.Lookbacks.{
  block_lookback, need, need_all, rule_lookbacks, rules_lookbacks, timeframe_key,
}

last_one-suffix : {B : Type 0} (k : ℕ) (xs : List B) → 1 ≤ k → last_one (suffix k xs) ≡ last_one xs
last_one-suffix k xs h =
    ap (λ ys. elim ys [ [] ↦ none | x ∷ _ ↦ some x ]) (suffix-suffix 1 k xs (omega arith) h)

last_two-suffix : {B : Type 0} (k : ℕ) (xs : List B) → 2 ≤ k → last_two (suffix k xs) ≡ last_two xs
last_two-suffix k xs h =
    ap (λ ys. elim ys [ [] ↦ none | a ∷ rest ↦ elim rest [ [] ↦ none | b ∷ _ ↦ some (a, b) ] ])
      (suffix-suffix 2 k xs (omega arith) h)

-- A block as strategy_capabilities.py accepts it, in its current shape.
abbrev pub IsAdmissible : {A : Type 0} → Block A → Type 0
IsAdmissible always = Unit
IsAdmissible (candle_direction none) = ⊥
IsAdmissible (candle_direction (some d)) = Unit
IsAdmissible (two_bar_reversal d) = Unit
IsAdmissible (sma_relation fast slow relation) = (1 ≤ fast) × (fast < slow)
IsAdmissible (ema_relation fast slow relation) = (1 ≤ fast) × (fast < slow)
IsAdmissible (price_vs_ma method period relation) = 1 ≤ period
IsAdmissible (rsi_threshold period relation threshold) = 1 ≤ period
IsAdmissible (bollinger_relation period deviations band relation) = 1 ≤ period
IsAdmissible (minimum_range lookback minimum_distance) = 1 ≤ lookback

module _ {A : Type 0} ⦃n : Number A⦄ (pstdev : List A → A) where
  closes-suffix :
      (k : ℕ) (bars : List (Bar A)) → closes_of (suffix k bars) ≡ suffix k (closes_of bars)
  closes-suffix k bars = sym (suffix-map (λ b. b.close) k bars)

  le-span_of : (method : Method) (period : ℕ) → period ≤ span_of method period
  le-span_of Method.sma period = omega arith
  le-span_of Method.ema period = omega (arith, le-warmup_bars period)

  lookback-eq :
      (method : Method) (period : ℕ) {k : ℕ} (relation : Relation)
      → block_lookback {A = A} (price_vs_ma method period relation) ≤ k
      → span_of method period ≤ k
  unfolding block_lookback
  lookback-eq Method.sma period relation h = h
  lookback-eq Method.ema period relation h = h

  price_truth-suffix :
      (method : Method) (period : ℕ) (relation : Relation) (bars : List (Bar A)) (k : ℕ)
      → 1 ≤ period
      → span_of method period ≤ k
      → 1 ≤ k
      → block_truth pstdev (price_vs_ma method period relation) (suffix k bars)
        ≡ block_truth pstdev (price_vs_ma method period relation) bars
  unfolding block_truth
  price_truth-suffix method period relation bars k h i enough =
      let closes = closes_of bars in
      ap (λ c. price_truth relation (moving_average c period method) (last_one c))
        (closes-suffix k bars)
      ∙ ap (λ a. price_truth relation a (last_one (suffix k closes)))
          (moving_average-suffix closes period k method h i)
      ∙ ap (price_truth relation (moving_average closes period method))
          (last_one-suffix k closes enough)

  -- A block reads no more than its lookback from the end of the candles.
  pub block_truth-suffix :
      (b : Block A) (bars : List (Bar A)) (k : ℕ)
      → IsAdmissible b
      → block_lookback b ≤ k
      → block_truth pstdev b (suffix k bars) ≡ block_truth pstdev b bars
  unfolding block_truth candle_truth reversal_truth sma_truth block_lookback
  block_truth-suffix always bars k h i = refl
  block_truth-suffix (candle_direction none) bars k h i = absurd h
  block_truth-suffix (candle_direction (some d)) bars k h i =
      ap (λ o. elim o [ none ↦ false | some b ↦ points d b ]) (last_one-suffix k bars i)
  block_truth-suffix (two_bar_reversal bullish) bars k h i =
      ap
        (λ o. elim o [
          | none ↦ false
          | some (a, b) ↦ n.lt a.close a.open_price && n.lt b.open_price b.close
        ])
        (last_two-suffix k bars i)
  block_truth-suffix (two_bar_reversal bearish) bars k h i =
      ap
        (λ o. elim o [
          | none ↦ false
          | some (a, b) ↦ n.lt a.open_price a.close && n.lt b.close b.open_price
        ])
        (last_two-suffix k bars i)
  block_truth-suffix (sma_relation fast slow relation) bars k (h, j) i = rw (
    ltb-suffix slow k bars (omega arith) i,
    closes-suffix k bars,
    suffix-suffix slow k (closes_of bars) (omega arith) i,
    suffix-suffix fast k (closes_of bars) h (omega arith),
  )
  block_truth-suffix (ema_relation fast slow relation) bars k (h, j) i =
      let closes = closes_of bars in
      let shorter = warmup_bars-le fast slow (omega arith) in
      rw (
        closes-suffix k bars,
        moving_average-suffix closes fast k Method.ema h (omega arith),
        moving_average-suffix closes slow k Method.ema (omega arith) i,
      )
  block_truth-suffix (price_vs_ma method period relation) bars k h i =
      let enough : 1 ≤ k =
        omega (arith, le-span_of method period, lookback-eq method period relation i) in
      price_truth-suffix method period relation bars k h (lookback-eq method period relation i)
        enough
  block_truth-suffix (rsi_threshold period relation threshold) bars k h i =
      rw (closes-suffix k bars, relative_strength_index-suffix (closes_of bars) period k i)
  block_truth-suffix (bollinger_relation period deviations band relation) bars k h i =
      let closes = closes_of bars in
      let enough : 1 ≤ k = omega arith in
      ap (λ c. band_truth relation band (bollinger_bands pstdev c period deviations) (last_one c))
        (closes-suffix k bars)
      ∙ ap (λ o. band_truth relation band o (last_one (suffix k closes)))
          (bollinger_bands-suffix pstdev closes period k deviations h i)
      ∙ ap (band_truth relation band (bollinger_bands pstdev closes period deviations))
          (last_one-suffix k closes enough)
  block_truth-suffix (minimum_range lookback minimum_distance) bars k h i =
      rw (ltb-suffix lookback k bars (omega arith) i, suffix-suffix lookback k bars h i)

-- The blocks of a rule are admissible.
unfoldable mutual
  pub IsAdmissibleRule : {A : Type 0} → Rule A → Type 0
  IsAdmissibleRule (block t b) = IsAdmissible b
  IsAdmissibleRule (all_rules children) = IsAdmissibleRules children
  IsAdmissibleRule (any_rules children) = IsAdmissibleRules children
  IsAdmissibleRule (not_rule child) = IsAdmissibleRule child

  pub IsAdmissibleRules : {A : Type 0} → Rules A → Type 0
  IsAdmissibleRules no_rules = Unit
  IsAdmissibleRules (more_rules rule rest) = IsAdmissibleRule rule × IsAdmissibleRules rest

-- Every count of the first dictionary is met by the second.
abbrev pub Covers : Dict Timeframe ℕ → Dict Timeframe ℕ → Type 0
Covers small big =
    (t : Timeframe) (c : ℕ) → get t small ≡ some c → (c' : ℕ) × (get t big ≡ some c') × (c ≤ c')

pub Covers-trans : (a b c : Dict Timeframe ℕ) → Covers a b → Covers b c → Covers a c
Covers-trans a b c h k t m e =
    let (m', e', i) = h t m e in let (m'', e'', j) = k t m' e' in (m'', e'', omega arith)

need_at :
    (t : Timeframe) (count : ℕ) (result : Dict Timeframe ℕ)
    → (c : ℕ) × (get t (need t count result) ≡ some c) × (count ≤ c)
unfolding need
need_at t count result =
    let before : ℕ = elim (get t result) [ none ↦ 0 | some c ↦ c ] in
    let v = if ltb before count then count else before in
    (v, rw ((timeframe_key.same_iff t t).1 refl) at (get-put t t v result), ground arith)

pub Covers-need :
    (t : Timeframe) (count : ℕ) (result : Dict Timeframe ℕ) → Covers result (need t count result)
unfolding need
Covers-need t count result j c e =
    let before : ℕ = elim (get t result) [ none ↦ 0 | some c ↦ c ] in
    let v = if ltb before count then count else before in
    elim (Bool-cases (timeframe_key.same t j)) [
      | inl here ↦
          let same = (timeframe_key.same_iff t j).0 here in
          let kept : get t result ≡ some c = ap (λ i. get i result) same ∙ e in
          let at_c : before ≡ c =
            ap (λ (o : Option ℕ). let m : ℕ = elim o [ none ↦ 0 | some c ↦ c ] in m) kept in
          (v, rw here at (get-put t j v result), ground (arith, at_c))
      | inr other ↦ (c, rw other at (get-put t j v result) ∙ e, omega arith)
    ]

pub Covers-need_all : (d result : Dict Timeframe ℕ) → Covers result (need_all d result)
unfolding need_all
Covers-need_all [] result = λ t c e. (c, e, omega arith)
Covers-need_all ((j, count) ∷ d) result =
    Covers-trans result (need j count result) (need_all d (need j count result))
      (Covers-need j count result) (Covers-need_all d (need j count result))

pub need_all-Covers : (d result : Dict Timeframe ℕ) → Covers d (need_all d result)
unfolding need_all get
need_all-Covers [] result t c e = cc
need_all-Covers ((j, count) ∷ d) result t c e = elim (Bool-cases (timeframe_key.same j t)) [
  | inl here ↦
      let same = (timeframe_key.same_iff j t).0 here in
      let count_is : some count ≡ some c = rw here at e in
      let (c', needed, i) = need_at j count result in
      let (c'', found, k) = Covers-need_all d (need j count result) j c' needed in
      (
        c'',
        ap (λ i. get i (need_all d (need j count result))) (sym same) ∙ found,
        ground (arith, count_is),
      )
  | inr other ↦ need_all-Covers d (need j count result) t c (rw other at e)
]

module _ {A : Type 0} (execution : Timeframe) where
  pub Covers-rules_lookbacks :
      (rules : Rules A) (result : Dict Timeframe ℕ)
      → Covers result (rules_lookbacks execution rules result)
  unfolding rules_lookbacks
  Covers-rules_lookbacks no_rules result = λ t c e. (c, e, omega arith)
  Covers-rules_lookbacks (more_rules rule rest) result =
      let needed = need_all (rule_lookbacks execution rule) result in
      Covers-trans result needed (rules_lookbacks execution rest needed)
        (Covers-need_all (rule_lookbacks execution rule) result)
        (Covers-rules_lookbacks rest needed)

module _ {A : Type 0} ⦃n : Number A⦄ (pstdev : List A → A) (execution : Timeframe)
    (available kept : Timeframe → Result (List (Bar A))) where
  -- The second source of candles keeps, of each timeframe in the dictionary, an end of the first's that
  -- is at least as long as the dictionary says.
  abbrev pub Keeps : Dict Timeframe ℕ → Type 0
  Keeps lookbacks =
      (t : Timeframe) (c : ℕ)
      → get t lookbacks ≡ some c
      → (bars : List (Bar A)) × (k : ℕ) × (available t ≡ ok bars)
        × (kept t ≡ ok (suffix k bars))
        × (c ≤ k)

  Keeps-Covers : (small big : Dict Timeframe ℕ) → Covers small big → Keeps big → Keeps small
  Keeps-Covers small big h keeps t c e =
      let (c', found, i) = h t c e in
      let (bars, k, all, some_bars, j) = keeps t c' found in (bars, k, all, some_bars, omega arith)

  abbrev Truth : (Timeframe → Result (List (Bar A))) → Rule A → Result Bool
  Truth source rule = rule_truth pstdev execution source rule

  block-Keeps :
      (t : Option Timeframe) (b : Block A)
      → IsAdmissible b
      → Keeps (rule_lookbacks execution (block t b))
      → Truth kept (block t b) ≡ Truth available (block t b)
  unfolding rule_truth rule_lookbacks get
  block-Keeps t b h keeps =
      let at = timeframe_of execution t in
      let (bars, k, all, some_bars, i) =
        keeps at (block_lookback b) (rw ((timeframe_key.same_iff at at).1 refl)) in
      rw (all, some_bars) (ap ok (block_truth-suffix pstdev b bars k h i))

  mutual
    unfolding rule_truth rule_lookbacks IsAdmissibleRule

    rule-Keeps :
        (rule : Rule A)
        → IsAdmissibleRule rule
        → Keeps (rule_lookbacks execution rule)
        → Truth kept rule ≡ Truth available rule
    rule-Keeps (block t b) h keeps = block-Keeps t b h keeps
    rule-Keeps (all_rules children) h keeps =
        ap (λ r. r >>= λ truths. ok (all_of (λ t. t) truths)) (rules-Keeps children [] h keeps)
    rule-Keeps (any_rules children) h keeps =
        ap (λ r. r >>= λ truths. ok (any_of (λ t. t) truths)) (rules-Keeps children [] h keeps)
    rule-Keeps (not_rule child) h keeps = ap (λ r. r >>= λ t. ok (not t)) (rule-Keeps child h keeps)

    rules-Keeps :
        (rules : Rules A) (result : Dict Timeframe ℕ)
        → IsAdmissibleRules rules
        → Keeps (rules_lookbacks execution rules result)
        → rules_truth pstdev execution kept rules ≡ rules_truth pstdev execution available rules
    rules-Keeps no_rules result h keeps = refl
    rules-Keeps (more_rules rule rest) result (h, k) keeps =
        let own = rule_lookbacks execution rule in
        let needed = need_all own result in
        let all = rules_lookbacks execution rest needed in
        let covered =
          Covers-trans own needed all (need_all-Covers own result)
            (Covers-rules_lookbacks execution rest needed) in
        ap (λ r. r >>= λ t. rules_truth pstdev execution kept rest >>= λ ts. ok (t ∷ ts))
          (rule-Keeps rule h (Keeps-Covers own all covered keeps))
        ∙ ap (λ r. Truth available rule >>= λ t. r >>= λ ts. ok (t ∷ ts))
            (rules-Keeps rest needed k keeps)

  -- For rules whose blocks are admissible: if a source of candles keeps, of each timeframe that
  -- `_rule_lookbacks` names, an end that is at least as long as it says, then the rules have the same
  -- truths on that source as on all the candles. In an admissible block the periods are positive, the
  -- fast one is the smaller, and a candle block has a direction.
  pub rules_truth-lookbacks :
      (rules : Rules A)
      → IsAdmissibleRules rules
      → Keeps (rules_lookbacks execution rules [])
      → rules_truth pstdev execution kept rules ≡ rules_truth pstdev execution available rules
  rules_truth-lookbacks rules h keeps = rules-Keeps rules [] h keeps
