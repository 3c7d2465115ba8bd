-- ===== src/MarketData/Examples.antt =====
-- Two artifacts that overlap at one timestamp: the row of the later path is kept.
use arkana.Base.{
  ℕ, ◌≤◌, ◌≡◌, refl, List, [], ◌∷◌, ok, raised, ◌>>=◌, String, length, All, sort_texts, ℤ, pos,
  negsuc, int_number, none, string_key, Dict, get, Option, some, arith,
}
use arkana.Market.{Bar}
use arkana.Kernel.{Config, simulate_kernel}
use arkana.Kernel.Chunks.{concat}
use arkana.Kernel.Legacy.{no_callbacks}
use arkana.MarketData.{
  iter_bars, open_streams, opened, total, merge_loop, least, same_of, chosen_of, greatest_path,
  advance, pushed,
}
use arkana.MarketData.Order.{IsAscending}
use arkana.MarketData.Coverage.{Has}
use arkana.MarketData.Merged.{iter_bars-batches, simulate_kernel-iter_bars}

abbrev bar : ℕ → ℕ → Bar ℤ
bar t price = record {
  timestamp = t;
  open_price = pos price;
  high = pos (price);
  low = pos price;
  close = pos price;
}

abbrev time : Bar ℤ → ℕ
time b = b.timestamp

abbrev artifacts : Dict String (List (Bar ℤ))
artifacts =
    ("a.parquet", bar 60 100 ∷ bar 120 101 ∷ [])
    ∷ ("b.parquet", bar 120 102 ∷ bar 180 103 ∷ bar 240 104 ∷ [])
    ∷ []

abbrev or_empty : Option (List (Bar ℤ)) → List (Bar ℤ)
or_empty none = []
or_empty (some bars) = bars

abbrev rows_of : String → List (Bar ℤ)
rows_of path = or_empty (get path artifacts)

abbrev paths : List String
paths = "b.parquet" ∷ "a.parquet" ∷ []

batches_of_two :
    iter_bars time rows_of paths (pos 2)
    ≡ ok ((bar 60 100 ∷ bar 120 102 ∷ []) ∷ (bar 180 103 ∷ bar 240 104 ∷ []) ∷ [])
unfolding iter_bars sort_texts open_streams opened total merge_loop least same_of chosen_of
    greatest_path advance pushed get
batches_of_two = refl

no_batch : iter_bars time rows_of paths (negsuc 0) ≡ raised "chunk_size must be positive"
unfolding iter_bars
no_batch = refl

iter_bars-batches_example :
    (chunks : List (List (Bar ℤ))) × (iter_bars time rows_of paths (pos 2) ≡ ok chunks)
    × All (λ (c : List (Bar ℤ)). (1 ≤ length c) × (length c ≤ 2)) chunks
    × IsAscending time (concat chunks)
    × All (λ path. All (λ b. Has time (time b) (concat chunks)) (rows_of path)) paths
unfolding get
iter_bars-batches_example = iter_bars-batches time rows_of paths 1 (omega arith)

abbrev config : Config ℤ
config = record {
  direction = none;
  stop_distance = pos 10;
  target_distance = pos 10;
  spread_price = pos 2;
  commission_price = pos 1;
}

simulate_kernel-iter_bars_example :
    (iter_bars time rows_of paths (pos 1) >>= λ chunks.
    simulate_kernel (no_callbacks {D = ℕ} none) config chunks 0)
    ≡ (iter_bars time rows_of paths (pos 3) >>= λ chunks.
        simulate_kernel (no_callbacks none) config chunks 0)
simulate_kernel-iter_bars_example =
    simulate_kernel-iter_bars (no_callbacks none) config rows_of paths 0 2 0
