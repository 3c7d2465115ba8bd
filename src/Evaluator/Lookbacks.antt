-- ===== src/Evaluator/Lookbacks.antt =====
-- `_block_lookback`, `_rule_lookbacks` and `_required_lookbacks` of
-- services/research/app/completed_candle_evaluator.py: how many completed candles of each timeframe a
-- contract needs, which sizes the histories of the streaming evaluator.
pub mod Enough
use arkana.Base.{
  ℕ, zero, suc, ◌+◌, ◌≡◌, refl, sym, ap, ◌∙◌, inl, inr, ◌↔◌, Bool, true, false, Option, none, some,
  List, [], ◌∷◌, ltb, ◌==◌, ==_iff, Dict, get, put, Key, if◌then◌else◌,
}
use arkana.Indicators.{Method, warmup_bars}
use arkana.Evaluator.{
  Timeframe, m1, m5, m15, m30, h1, h4, minutes, Block, always, candle_direction, two_bar_reversal,
  sma_relation, ema_relation, price_vs_ma, rsi_threshold, bollinger_relation, minimum_range, Rule,
  block, all_rules, any_rules, not_rule, Rules, no_rules, more_rules, timeframe_of,
}

abbrev of_minutes : ℕ → Timeframe
of_minutes k =
    if k == 1
    then m1
    else if k == 5
    then m5
    else if k == 15
    then m15
    else if k == 30
    then m30
    else if k == 60
    then h1
    else h4

of_minutes-minutes : (t : Timeframe) → of_minutes (minutes t) ≡ t
of_minutes-minutes m1 = refl
of_minutes-minutes m5 = refl
of_minutes-minutes m15 = refl
of_minutes-minutes m30 = refl
of_minutes-minutes h1 = refl
of_minutes-minutes h4 = refl

pub same_timeframe_iff : (a b : Timeframe) → ((minutes a == minutes b) ≡ true) ↔ (a ≡ b)
same_timeframe_iff a b = (
  λ e.
      sym (of_minutes-minutes a)
      ∙ ap of_minutes ((==_iff (minutes a) (minutes b)).0 e)
      ∙ of_minutes-minutes b,
  λ e. (==_iff (minutes a) (minutes b)).1 (ap minutes e),
)

-- The keys "M1" to "H4".
instance abbrev pub timeframe_key : Key Timeframe
timeframe_key = record { same = λ a b. minutes a == minutes b; same_iff = same_timeframe_iff }

unfoldable pub block_lookback : {A : Type 0} → Block A → ℕ
block_lookback (ema_relation fast slow relation) = warmup_bars slow
block_lookback (price_vs_ma Method.sma period relation) = period
block_lookback (price_vs_ma Method.ema period relation) = warmup_bars period
block_lookback (rsi_threshold period relation threshold) = warmup_bars period + 1
block_lookback (bollinger_relation period deviations band relation) = period
block_lookback (minimum_range lookback minimum_distance) = lookback
block_lookback (sma_relation fast slow relation) = slow
block_lookback (two_bar_reversal d) = 2
block_lookback (candle_direction d) = 1
block_lookback always = 1

-- `result[timeframe] = max(result.get(timeframe, 0), count)`
unfoldable pub need : Timeframe → ℕ → Dict Timeframe ℕ → Dict Timeframe ℕ
need t count result =
    let before : ℕ = elim (get t result) [ none ↦ 0 | some c ↦ c ] in
    put t (if ltb before count then count else before) result

unfoldable pub need_all : Dict Timeframe ℕ → Dict Timeframe ℕ → Dict Timeframe ℕ
unfolding need
need_all [] result = result
need_all ((t, count) ∷ rest) result = need_all rest (need t count result)

module _ {A : Type 0} (execution : Timeframe) where
  unfoldable mutual
    unfolding need_all block_lookback

    pub rule_lookbacks : Rule A → Dict Timeframe ℕ
    rule_lookbacks (block t b) = (timeframe_of execution t, block_lookback b) ∷ []
    rule_lookbacks (all_rules children) = rules_lookbacks children []
    rule_lookbacks (any_rules children) = rules_lookbacks children []
    rule_lookbacks (not_rule child) = rule_lookbacks child

    -- The loop over the children, or over the rules of a section.
    pub rules_lookbacks : Rules A → Dict Timeframe ℕ → Dict Timeframe ℕ
    rules_lookbacks no_rules result = result
    rules_lookbacks (more_rules rule rest) result =
        rules_lookbacks rest (need_all (rule_lookbacks rule) result)
