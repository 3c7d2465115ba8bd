-- ===== src/Gate/View.antt =====
-- What the callbacks of the breakdown read and keep.
use arkana.Base.{ℕ, ◌≡◌, refl, ap, ◌∙◌, some, [], ◌∷◌, ◌++◌, ◌+◌, Number, String}
use arkana.Market.{Bar}
use arkana.Kernel.{Trade}
use arkana.Gate.{
  Breakdown, on_candle, on_entry, on_trade, add_to, or_warmup, next_regime, regime_lookback,
}
use arkana.Indicators.{suffix}

module _ {A : Type 0} ⦃n : Number A⦄ where
  -- Two breakdowns that have seen the same candles.
  pub record SameView (a b : Breakdown A) : Type 0 where
    pub thresholds : a.thresholds ≡ b.thresholds
    pub closes : a.closes ≡ b.closes
    pub regime : a.current_regime ≡ b.current_regime

  pub on_candle-SameView :
      (candle : Bar A) (a b : Breakdown A)
      → SameView a b
      → SameView (on_candle candle a) (on_candle candle b)
  unfolding on_candle
  on_candle-SameView candle a b h =
      let closes = ap (λ xs. suffix (regime_lookback + 1) (xs ++ (candle.close ∷ []))) h.closes in
      record {
        thresholds = h.thresholds;
        closes = closes;
        regime =
            ap
              (λ t.
                next_regime t (suffix (regime_lookback + 1) (a.closes ++ (candle.close ∷ [])))
                  candle)
              h.thresholds
            ∙ ap (λ xs. next_regime b.thresholds xs candle) closes;
      }

  pub on_candle-entry_regime :
      (candle : Bar A) (b : Breakdown A) → (on_candle candle b).entry_regime ≡ b.entry_regime
  unfolding on_candle
  on_candle-entry_regime candle b = refl

  pub on_entry-on_candle :
      (entry candle : Bar A) (b : Breakdown A)
      → (on_entry entry (on_candle candle b)).entry_regime ≡ some (or_warmup b.current_regime)
  unfolding on_entry on_candle
  on_entry-on_candle entry candle b = refl

  pub on_entry-SameView :
      (candle : Bar A) (a b : Breakdown A) → SameView a b → SameView (on_entry candle a) b
  unfolding on_entry
  on_entry-SameView candle a b h = record {
    thresholds = h.thresholds;
    closes = h.closes;
    regime = h.regime;
  }

  pub on_trade-SameView :
      (year_of : ℕ → String) (trade : Trade A) (a b : Breakdown A)
      → SameView a b
      → SameView (on_trade year_of trade a) b
  unfolding on_trade
  on_trade-SameView year_of trade a b h = record {
    thresholds = h.thresholds;
    closes = h.closes;
    regime = h.regime;
  }

  pub on_candle-regime_net_pnl :
      (candle : Bar A) (b : Breakdown A) → (on_candle candle b).regime_net_pnl ≡ b.regime_net_pnl
  unfolding on_candle
  on_candle-regime_net_pnl candle b = refl

  pub on_entry-regime_net_pnl :
      (candle : Bar A) (b : Breakdown A) → (on_entry candle b).regime_net_pnl ≡ b.regime_net_pnl
  unfolding on_entry
  on_entry-regime_net_pnl candle b = refl

  pub on_trade-regime_net_pnl :
      (year_of : ℕ → String) (trade : Trade A) (b : Breakdown A)
      → (on_trade year_of trade b).regime_net_pnl
        ≡ add_to (or_warmup b.entry_regime) trade.net_pnl_price b.regime_net_pnl
  unfolding on_trade
  on_trade-regime_net_pnl year_of trade b = refl
