-- ===== src/MarketData/Merged.antt =====
-- What `iter_bars` yields, and a kernel run on it.
use arkana.Base.{
  ℕ, suc, ◌≤◌, ◌≡◌, sym, ap, ◌∙◌, true, false, List, [], ◌∷◌, ok, String, length, sort_texts, pos,
  All, codes, codes_le, Bool-cases, inl, inr, arith, subst, ◌>>=◌, insert_text, Number,
}
use arkana.MarketData.{Head, opened, open_streams, total, iter_bars}
use arkana.MarketData.Rounds.{merged}
use arkana.MarketData.Batches.{cut, merge_loop-eq-cut, concat-cut, cut-sizes}
use arkana.MarketData.Order.{IsAscending, IsOrdered, merged-IsAscending}
use arkana.MarketData.Coverage.{Has, Covers, merged-Covers}
use arkana.Kernel.Chunks.{concat, simulate_kernel-rechunk}
use arkana.Kernel.{Callbacks, Config, simulate_kernel}
use arkana.Market.{Bar}

insert_text-before :
    (a b : String) (xs : List String)
    → codes_le (codes a) (codes b) ≡ true
    → insert_text a (b ∷ xs) ≡ a ∷ b ∷ xs
insert_text-before a b xs h = rw (h, insert_text)

insert_text-after :
    (a b : String) (xs : List String)
    → codes_le (codes a) (codes b) ≡ false
    → insert_text a (b ∷ xs) ≡ b ∷ insert_text a xs
insert_text-after a b xs h = rw (h, insert_text)

module _ (P : String → Type 0) where
  insert_text-All : (a : String) (xs : List String) → P a → All P xs → All P (insert_text a xs)
  insert_text-All a [] p ps = (p, tt)
  insert_text-All a (b ∷ xs) p (q, ps) = elim (Bool-cases (codes_le (codes a) (codes b))) [
    | inl before ↦ subst (All P) (sym (insert_text-before a b xs before)) (p, (q, ps))
    | inr after ↦
        subst (All P) (sym (insert_text-after a b xs after)) (q, insert_text-All a xs p ps)
  ]

  sort_texts-All : (xs : List String) → All P xs → All P (sort_texts xs)
  unfolding sort_texts
  sort_texts-All [] h = tt
  sort_texts-All (a ∷ xs) (p, ps) = insert_text-All a (sort_texts xs) p (sort_texts-All xs ps)

  All-insert_text : (a : String) (xs : List String) → All P (insert_text a xs) → P a × All P xs
  All-insert_text a [] h = h
  All-insert_text a (b ∷ xs) h = elim (Bool-cases (codes_le (codes a) (codes b))) [
    | inl before ↦ subst (All P) (insert_text-before a b xs before) h
    | inr after ↦
        let (q, rest) : P b × All P (insert_text a xs) =
          subst (All P) (insert_text-after a b xs after) h in
        let (p, ps) = All-insert_text a xs rest in (p, (q, ps))
  ]

  All-sort_texts : (xs : List String) → All P (sort_texts xs) → All P xs
  unfolding sort_texts
  All-sort_texts [] h = tt
  All-sort_texts (a ∷ xs) h =
      let (p, ps) = All-insert_text a (sort_texts xs) h in (p, All-sort_texts xs ps)

module _ {B : Type 0} (time : B → ℕ) (rows_of : String → List B) where
  opened-IsOrdered :
      (path : String) (rows : List B) (heads : List (Head B))
      → IsAscending time rows
      → All (IsOrdered time) heads
      → All (IsOrdered time) (opened path rows heads)
  unfolding opened
  opened-IsOrdered path [] heads h hs = hs
  opened-IsOrdered path (b ∷ rows) heads h hs = (h, hs)

  opened-Covers :
      (path : String) (rows out : List B) (heads : List (Head B))
      → All (Covers time out) (opened path rows heads)
      → All (λ b. Has time (time b) out) rows × All (Covers time out) heads
  unfolding opened
  opened-Covers path [] out heads h = (tt, h)
  opened-Covers path (b ∷ rows) out heads (h, hs) = (h, hs)

  open_streams-IsOrdered :
      (paths : List String)
      → All (λ path. IsAscending time (rows_of path)) paths
      → All (IsOrdered time) (open_streams rows_of paths)
  unfolding open_streams
  open_streams-IsOrdered [] h = tt
  open_streams-IsOrdered (path ∷ paths) (h, hs) =
      opened-IsOrdered path (rows_of path) (open_streams rows_of paths) h
        (open_streams-IsOrdered paths hs)

  open_streams-Covers :
      (out : List B) (paths : List String)
      → All (Covers time out) (open_streams rows_of paths)
      → All (λ path. All (λ b. Has time (time b) out) (rows_of path)) paths
  unfolding open_streams
  open_streams-Covers out [] h = tt
  open_streams-Covers out (path ∷ paths) h =
      let (own, later) = opened-Covers path (rows_of path) out (open_streams rows_of paths) h in
      (own, open_streams-Covers out paths later)

  -- A positive size yields the batches of the merge.
  iter_bars-eq-cut :
      (found : List String) (k : ℕ)
      → let heads = open_streams rows_of (sort_texts found) in
        iter_bars time rows_of found (pos (suc k))
        ≡ ok (cut time (suc k) [] (merged time (suc (total heads)) heads))
  unfolding iter_bars
  iter_bars-eq-cut found k =
      let heads = open_streams rows_of (sort_texts found) in
      ap ok (merge_loop-eq-cut time (suc (total heads)) (suc k) [] heads (omega arith))

  -- If the rows of each artifact rise in time, the batches of a positive size are neither empty nor
  -- larger, they follow each other to rows that rise in time, and every timestamp of every artifact is
  -- there.
  pub iter_bars-batches :
      (found : List String) (k : ℕ)
      → All (λ path. IsAscending time (rows_of path)) found
      → (chunks : List (List B)) × (iter_bars time rows_of found (pos (suc k)) ≡ ok chunks)
        × All (λ (c : List B). (1 ≤ length c) × (length c ≤ suc k)) chunks
        × IsAscending time (concat chunks)
        × All (λ path. All (λ b. Has time (time b) (concat chunks)) (rows_of path)) found
  iter_bars-batches found k h =
      let heads = open_streams rows_of (sort_texts found) in
      let rows = merged time (suc (total heads)) heads in
      let whole = concat-cut time (suc k) [] rows in
      let ordered = open_streams-IsOrdered (sort_texts found) (sort_texts-All _ found h) in
      let covered = All-sort_texts _ found (
        open_streams-Covers rows (sort_texts found)
          (merged-Covers time (suc (total heads)) heads (omega arith))) in
      (
        cut time (suc k) [] rows,
        iter_bars-eq-cut found k,
        cut-sizes time (suc k) [] rows (omega arith),
        subst (IsAscending time) (sym whole)
            (merged-IsAscending time (suc (total heads)) heads ordered),
        subst (λ out. All (λ path. All (λ b. Has time (time b) out) (rows_of path)) found)
            (sym whole) covered,
      )

-- A kernel run on what `iter_bars` yields is the same for every two positive batch sizes: the same
-- environment after all callbacks and the same ledger, or the same error.
pub simulate_kernel-iter_bars :
    {A D : Type 0} ⦃n : Number A⦄ (cb : Callbacks A D) (c : Config A)
    (rows_of : String → List (Bar A)) (found : List String) (j k : ℕ) (d : D)
    → let run = λ (size : ℕ). (do
      chunks ← iter_bars (λ (b : Bar A). b.timestamp) rows_of found (pos (suc size))
      simulate_kernel cb c chunks d) in
      run j ≡ run k
simulate_kernel-iter_bars {A} cb c rows_of found j k d =
    let time = λ (b : Bar A). b.timestamp in
    let heads = open_streams rows_of (sort_texts found) in
    let rows = merged time (suc (total heads)) heads in
    rw (iter_bars-eq-cut time rows_of found j, iter_bars-eq-cut time rows_of found k)
      (simulate_kernel-rechunk cb c (cut time (suc j) [] rows) (cut time (suc k) [] rows) d
        (concat-cut time (suc j) [] rows ∙ sym (concat-cut time (suc k) [] rows)))
