-- ===== src/Metrics/Years.antt =====
-- `_TradeAccumulator`, which keeps the values and the sums, against the ledger and its years.
use arkana.Base.{
  append_nil, append-snoc, length, nought, ℕ, ◌≡◌, refl, sym, ap, ◌∙◌, true, Option, none, some,
  List, [], ◌∷◌, ◌++◌, map, foldl, Number, Bool-cases, Option-cases, inl, inr, String, Dict, get,
  put, get-put, string_key,
}
use arkana.Kernel.{Trade}
use arkana.Indicators.Window.{length-map}
use arkana.Metrics.{
  Metrics, average, summary, metrics, Totals, TradeAccumulator, new_trade_accumulator, no_totals,
  add_totals, add_yearly, add, totals_metrics, year_ledgers,
}

abbrev pub map_option : {B C : Type 0} → (B → C) → Option B → Option C
map_option f none = none
map_option f (some b) = some (f b)

module _ {A : Type 0} ⦃n : Number A⦄ where
  -- What the accumulator of one year holds after a ledger.
  abbrev pub totals_of : List (Trade A) → Totals A
  totals_of trades = foldl add_totals no_totals trades

  totals-add :
      (year_of : ℕ → String) (trades : List (Trade A)) (acc : TradeAccumulator A)
      → (foldl (add year_of) acc trades).totals ≡ foldl add_totals acc.totals trades
  unfolding add
  totals-add year_of [] acc = refl
  totals-add year_of (t ∷ trades) acc = totals-add year_of trades (add year_of acc t)

  foldl-snoc :
      (trades : List (Trade A)) (t : Trade A) (s : Totals A)
      → foldl add_totals s (trades ++ (t ∷ [])) ≡ add_totals (foldl add_totals s trades) t
  foldl-snoc [] t s = refl
  foldl-snoc (u ∷ trades) t s = foldl-snoc trades t (add_totals s u)

  abbrev map_totals : Option (List (Trade A)) → Option (Totals A)
  map_totals none = none
  map_totals (some trades) = some (totals_of trades)

  abbrev YearlyAgrees : Dict String (Totals A) → Dict String (List (Trade A)) → Type 0
  YearlyAgrees yearly buckets = (year : String) → get year yearly ≡ map_totals (get year buckets)

  put-YearlyAgrees :
      (key : String) (items : List (Trade A)) (yearly : Dict String (Totals A))
      (buckets : Dict String (List (Trade A)))
      → YearlyAgrees yearly buckets
      → YearlyAgrees (put key (totals_of items) yearly) (put key items buckets)
  put-YearlyAgrees key items yearly buckets h year = elim (Bool-cases (string_key.same key year)) [
    | inl here ↦
        rw here at (get-put key year (totals_of items) yearly)
        ∙ sym (ap map_totals (rw here at (get-put key year items buckets)))
    | inr other ↦
        rw other at (get-put key year (totals_of items) yearly)
        ∙ h year
        ∙ sym (ap map_totals (rw other at (get-put key year items buckets)))
  ]

  add_yearly-YearlyAgrees :
      (key : String) (t : Trade A) (yearly : Dict String (Totals A))
      (buckets : Dict String (List (Trade A)))
      → YearlyAgrees yearly buckets
      → YearlyAgrees (add_yearly key t yearly) (elim (get key buckets) [
        | none ↦ put key (t ∷ []) buckets
        | some items ↦ put key (items ++ (t ∷ [])) buckets
      ])
  unfolding add_yearly
  add_yearly-YearlyAgrees key t yearly buckets h year = elim (Option-cases (get key buckets)) [
    | inl absent ↦
        let none_yet = h key ∙ ap map_totals absent in
        rw (absent, none_yet, add_yearly) (put-YearlyAgrees key (t ∷ []) yearly buckets h year)
    | inr (items, there) ↦
        let so_far = h key ∙ ap map_totals there in
        rw (there, so_far, add_yearly)
          (rw (foldl-snoc items t no_totals) at
            (put-YearlyAgrees key (items ++ (t ∷ [])) yearly buckets h year))
  ]

  yearly-agrees :
      (year_of : ℕ → String) (trades : List (Trade A)) (totals : Totals A)
      (yearly : Dict String (Totals A)) (buckets : Dict String (List (Trade A)))
      → YearlyAgrees yearly buckets
      → (after : Dict String (Totals A)) × ((foldl
            (add year_of)
            (record { totals = totals; yearly = some yearly })
            trades).yearly
          ≡ some after)
        × YearlyAgrees after (year_ledgers year_of trades buckets)
  unfolding add year_ledgers
  yearly-agrees year_of [] totals yearly buckets h = (yearly, refl, h)
  yearly-agrees year_of (t ∷ trades) totals yearly buckets h =
      yearly-agrees year_of trades (add_totals totals t)
        (add_yearly (year_of t.entry_timestamp) t yearly) _
        (add_yearly-YearlyAgrees (year_of t.entry_timestamp) t yearly buckets h)

  -- `total += x` for each item, from 0
  abbrev pub running : List A → A
  running xs = foldl n.add nought xs

  foldl-add_snoc :
      (xs : List A) (x a : A) → foldl n.add a (xs ++ (x ∷ [])) ≡ n.add (foldl n.add a xs) x
  foldl-add_snoc [] x a = refl
  foldl-add_snoc (y ∷ xs) x a = foldl-add_snoc xs x (n.add a y)

  -- The metrics of a ledger, but for the mean excursions, whose sums are added one by one.
  abbrev pub ledger_metrics : List (Trade A) → Metrics A
  ledger_metrics trades = record (metrics trades) {
    average_mae_price = average (running (map (λ t. t.mae_price) trades)) (length trades);
    average_mfe_price = average (running (map (λ t. t.mfe_price) trades)) (length trades);
  }

  record HoldsLedger (pnl maes mfes : List A) (s : Totals A) : Type 0 where
    values : s.values ≡ pnl
    mae : s.mae ≡ running maes
    mfe : s.mfe ≡ running mfes

  foldl-HoldsLedger :
      (trades : List (Trade A)) (pnl maes mfes : List A) (s : Totals A)
      → HoldsLedger pnl maes mfes s
      → HoldsLedger
          (pnl ++ map (λ t. t.net_pnl_price) trades)
          (maes ++ map (λ t. t.mae_price) trades)
          (mfes ++ map (λ t. t.mfe_price) trades)
          (foldl add_totals s trades)
  unfolding add_totals
  foldl-HoldsLedger [] pnl maes mfes s h = rw (append_nil pnl, append_nil maes, append_nil mfes) h
  foldl-HoldsLedger (t ∷ trades) pnl maes mfes s h =
      rw
        (
          append-snoc pnl t.net_pnl_price (map (λ t. t.net_pnl_price) trades),
          append-snoc maes t.mae_price (map (λ t. t.mae_price) trades),
          append-snoc mfes t.mfe_price (map (λ t. t.mfe_price) trades),
        )
        at
        (foldl-HoldsLedger trades (pnl ++ (t.net_pnl_price ∷ [])) (maes ++ (t.mae_price ∷ []))
          (mfes ++ (t.mfe_price ∷ [])) (add_totals s t)
          (record {
            values = ap (λ xs. xs ++ (t.net_pnl_price ∷ [])) h.values;
            mae =
                ap (λ a. n.add a t.mae_price) h.mae ∙ sym (foldl-add_snoc maes t.mae_price nought);
            mfe =
                ap (λ a. n.add a t.mfe_price) h.mfe ∙ sym (foldl-add_snoc mfes t.mfe_price nought);
          }))

  totals_metrics-eq-ledger :
      (trades : List (Trade A)) → totals_metrics (totals_of trades) ≡ ledger_metrics trades
  unfolding totals_metrics metrics summary
  totals_metrics-eq-ledger trades =
      let h =
        foldl-HoldsLedger trades [] [] [] no_totals
          (record { values = refl; mae = refl; mfe = refl }) in
      rw (h.values, h.mae, h.mfe)
        (ap
          (λ k. record (metrics trades) {
            average_mae_price = average (running (map (λ t. t.mae_price) trades)) k;
            average_mfe_price = average (running (map (λ t. t.mfe_price) trades)) k;
          })
          (length-map (λ t. t.net_pnl_price) trades))

  map-ledger :
      (o : Option (List (Trade A)))
      → map_option totals_metrics (map_totals o) ≡ map_option ledger_metrics o
  map-ledger none = refl
  map-ledger (some trades) = ap some (totals_metrics-eq-ledger trades)

  -- The accumulator of a full run reports, of the whole ledger that it does not keep, every metric that
  -- `_metrics` computes, with the mean excursions over sums that are added one by one; and of each year
  -- it reports the same of the ledger that `_yearly_breakdown` has for it: the trades entered in it.
  pub add-metrics :
      (year_of : ℕ → String) (trades : List (Trade A))
      → let acc = foldl (add year_of) (new_trade_accumulator true) trades in
        (totals_metrics acc.totals ≡ ledger_metrics trades)
        × ((yearly : Dict String (Totals A)) × (acc.yearly ≡ some yearly)
            × ((year : String)
                → map_option totals_metrics (get year yearly)
                  ≡ map_option ledger_metrics (get year (year_ledgers year_of trades []))))
  unfolding get
  add-metrics year_of trades =
      let (yearly, after, agrees) = yearly-agrees year_of trades no_totals [] [] (λ year. refl) in
      (
        ap totals_metrics (totals-add year_of trades (new_trade_accumulator true))
            ∙ totals_metrics-eq-ledger trades,
        (
          yearly,
          after,
          λ year.
              ap (map_option totals_metrics) (agrees year)
              ∙ map-ledger (get year (year_ledgers year_of trades [])),
        ),
      )
