-- ===== src/Market.antt =====
-- The candles that the components read (market_data.py hands them over as dictionaries). A timestamp
-- is a count of seconds; `str(timestamp)` in the source is only its rendering.
use arkana.Base.{ℕ, ◌<◌, List, [], ◌∷◌}

pub record Bar (A : Type 0) : Type 0 where
  pub timestamp : ℕ
  pub open_price : A
  pub high : A
  pub low : A
  pub close : A

-- The bars after time `t`, each later than the one before it.
abbrev pub IsChronological : {A : Type 0} → ℕ → List (Bar A) → Type 0
IsChronological t [] = Unit
IsChronological t (b ∷ bars) = (t < b.timestamp) × IsChronological b.timestamp bars
