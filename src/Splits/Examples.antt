-- ===== src/Splits/Examples.antt =====
-- A history of seven bars in three chunks.
use arkana.Base.{
  ℕ, ◌≡◌, refl, List, [], ◌∷◌, ◌++◌, ok, slice, ℤ, pos, negsuc, int_number, none, raised,
}
use arkana.Market.{Bar}
use arkana.Kernel.{Config, simulate_kernel}
use arkana.Kernel.Chunks.{concat}
use arkana.Kernel.Legacy.{no_callbacks}
use arkana.Splits.{Bounds, split_bounds, slice_chunks}
use arkana.Splits.Cover.{slice_chunks-slice, simulate_kernel-slice_chunks, split_bounds-cover}

abbrev chunks : List (List ℕ)
chunks = (0 ∷ 1 ∷ 2 ∷ []) ∷ [] ∷ (3 ∷ 4 ∷ []) ∷ (5 ∷ 6 ∷ []) ∷ []

of_seven :
    split_bounds (pos 7) ≡ ok (record { train = (0, 4); holdout = (4, 5); final_oos = (5, 7) })
unfolding split_bounds
of_seven = refl

of_negative : split_bounds (negsuc 0) ≡ raised "row_count cannot be negative"
unfolding split_bounds
of_negative = refl

across_chunks : slice_chunks 1 4 chunks ≡ (1 ∷ 2 ∷ []) ∷ (3 ∷ []) ∷ []
unfolding slice_chunks
across_chunks = refl

slice_chunks-slice_example : concat (slice_chunks 1 4 chunks) ≡ slice 1 4 (concat chunks)
slice_chunks-slice_example = slice_chunks-slice 1 4 chunks

split_bounds-cover_example :
    (b : Bounds) × (split_bounds (pos 7) ≡ ok b)
    × (concat (slice_chunks b.train.0 b.train.1 chunks)
          ++ (concat (slice_chunks b.holdout.0 b.holdout.1 chunks)
              ++ concat (slice_chunks b.final_oos.0 b.final_oos.1 chunks))
        ≡ concat chunks)
split_bounds-cover_example = split_bounds-cover chunks

abbrev bar : ℕ → ℕ → ℕ → ℕ → ℕ → Bar ℤ
bar t o h l c = record {
  timestamp = t;
  open_price = pos o;
  high = pos h;
  low = pos l;
  close = pos c;
}

abbrev history : List (List (Bar ℤ))
history =
    (bar 60 100 102 95 96 ∷ bar 120 96 105 95 104 ∷ [])
    ∷ (bar 180 104 106 103 105 ∷ bar 240 105 120 104 118 ∷ [])
    ∷ []

abbrev config : Config ℤ
config = record {
  direction = none;
  stop_distance = pos 10;
  target_distance = pos 10;
  spread_price = pos 2;
  commission_price = pos 1;
}

simulate_kernel-slice_chunks_example :
    simulate_kernel (no_callbacks {D = ℕ} none) config (slice_chunks 0 3 history) 0
    ≡ simulate_kernel (no_callbacks none) config (slice 0 3 (concat history) ∷ []) 0
simulate_kernel-slice_chunks_example =
    simulate_kernel-slice_chunks (no_callbacks none) config 0 3 history 0
