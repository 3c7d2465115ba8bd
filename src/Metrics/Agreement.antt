-- ===== src/Metrics/Agreement.antt =====
-- The accumulators against `_metrics` of the ledger that they have seen.
use arkana.Base.{
  append_nil, append-snoc, foldl, ℕ, ◌+◌, ◌-◌, ◌≡◌, refl, sym, ap, ◌∙◌, Bool, true, false, not,
  List, [], ◌∷◌, ◌++◌, map, arith, length, length-append, Number, nought, abs_of, Bool-cases, inl,
  inr, if◌then◌else◌, string_key, IsOrdered,
}
use arkana.Kernel.{Trade}
use arkana.Metrics.{
  Metrics, Curve, max_ℕ, is_win, is_loss, keep, flat, curve_step, curve, summary, metrics,
  OosAccumulator, new_oos_accumulator, count_pnl, add_oos, add_oos_all, oos_metrics,
}

-- `sum` adds from the left, starting at 0, and `abs` is 0 at 0 only.
record IsExact (A : Type 0) ⦃n : Number A⦄ : Type 0 where
  sum_nil : n.sum [] ≡ nought
  sum_snoc : (xs : List A) (x : A) → n.sum (xs ++ (x ∷ [])) ≡ n.add (n.sum xs) x
  abs_zero : (a : A) → n.eq (abs_of a) nought ≡ n.eq a nought
  ordered : IsOrdered A

module _ {A : Type 0} ⦃n : Number A⦄ (exact : IsExact A) where
  open exact use {sum_nil, sum_snoc, abs_zero, ordered}

  pnl_of : List (Trade A) → List A
  pnl_of trades = map (λ t. t.net_pnl_price) trades

  curve-snoc :
      (xs : List A) (x : A) (k : Curve A) → curve (xs ++ (x ∷ [])) k ≡ curve_step (curve xs k) x
  unfolding curve
  curve-snoc [] x k = refl
  curve-snoc (y ∷ xs) x k = curve-snoc xs x (curve_step k y)

  keep-snoc :
      (test : A → Bool) (xs : List A) (x : A)
      → keep test (xs ++ (x ∷ [])) ≡ keep test xs ++ (if test x then x ∷ [] else [])
  keep-snoc test [] x = refl
  keep-snoc test (y ∷ xs) x = elim (Bool-cases (test y)) [
    | inl kept ↦ rw kept (ap (λ t. y ∷ t) (keep-snoc test xs x))
    | inr dropped ↦ rw dropped (keep-snoc test xs x)
  ]

  keep-snoc_kept :
      (test : A → Bool) (xs : List A) (x : A)
      → test x ≡ true
      → keep test (xs ++ (x ∷ [])) ≡ keep test xs ++ (x ∷ [])
  keep-snoc_kept test xs x h = rw h at (keep-snoc test xs x)

  keep-snoc_dropped :
      (test : A → Bool) (xs : List A) (x : A)
      → test x ≡ false
      → keep test (xs ++ (x ∷ [])) ≡ keep test xs
  keep-snoc_dropped test xs x h = rw h at (keep-snoc test xs x) ∙ append_nil (keep test xs)

  -- A value is a win or a loss, never both.
  is_loss-eq-not-is_win : (v : A) → is_loss v ≡ not (is_win v)
  is_loss-eq-not-is_win v = ground (arith, ordered.lt-eq-not-le nought v)

  max_zero : (a : ℕ) → max_ℕ a 0 ≡ a
  max_zero a = ground arith

  -- What one value does to the curve is what it does to the accumulator.
  record IsCurve (k : Curve A) (o : OosAccumulator A) : Type 0 where
    equity : k.equity ≡ o.equity
    peak : k.peak ≡ o.peak
    max_drawdown : k.max_drawdown ≡ o.max_drawdown
    consecutive : k.consecutive ≡ o.consecutive_losses
    max_consecutive : k.max_consecutive ≡ o.max_consecutive_losses

  add_oos-IsCurve :
      (k : Curve A) (o : OosAccumulator A) (t : Trade A) (b : Bool)
      → is_win t.net_pnl_price ≡ b
      → is_loss t.net_pnl_price ≡ not b
      → IsCurve k o
      → IsCurve (curve_step k t.net_pnl_price) (add_oos o t)
  unfolding add_oos count_pnl curve_step
  add_oos-IsCurve k o t true win loss h = record {
    equity = rw (win, h.equity);
    peak = rw (win, h.equity, h.peak);
    max_drawdown = rw (win, h.equity, h.peak, h.max_drawdown);
    consecutive = rw (win, loss);
    max_consecutive = rw (win, loss) (max_zero k.max_consecutive ∙ h.max_consecutive);
  }
  add_oos-IsCurve k o t false win loss h = record {
    equity = rw (win, h.equity);
    peak = rw (win, h.equity, h.peak);
    max_drawdown = rw (win, h.equity, h.peak, h.max_drawdown);
    consecutive = rw (win, loss, h.consecutive);
    max_consecutive = rw (win, loss, h.consecutive, h.max_consecutive);
  }

  record HasSums (pnl maes mfes : List A) (o : OosAccumulator A) : Type 0 where
    count : o.count ≡ length pnl
    winners : o.winners ≡ length (keep is_win pnl)
    losses : o.winners + length (keep is_loss pnl) ≡ length pnl
    gross_win : o.gross_win ≡ n.sum (keep is_win pnl)
    gross_loss : o.gross_loss ≡ n.sum (keep is_loss pnl)
    equity : o.equity ≡ n.sum pnl
    mae : o.mae ≡ n.sum maes
    mfe : o.mfe ≡ n.sum mfes

  sum-snoc_of : (a x : A) (xs : List A) → a ≡ n.sum xs → n.add a x ≡ n.sum (xs ++ (x ∷ []))
  sum-snoc_of a x xs h = ap (λ s. n.add s x) h ∙ sym (sum_snoc xs x)

  add_oos-HasSums :
      (pnl maes mfes : List A) (o : OosAccumulator A) (t : Trade A) (b : Bool)
      → is_win t.net_pnl_price ≡ b
      → is_loss t.net_pnl_price ≡ not b
      → HasSums pnl maes mfes o
      → HasSums
          (pnl ++ (t.net_pnl_price ∷ []))
          (maes ++ (t.mae_price ∷ []))
          (mfes ++ (t.mfe_price ∷ []))
          (add_oos o t)
  unfolding add_oos count_pnl
  add_oos-HasSums pnl maes mfes o t true win loss h =
      let v = t.net_pnl_price in
      let won = keep-snoc_kept is_win pnl v win in
      let not_lost = keep-snoc_dropped is_loss pnl v loss in
      let more = length-append pnl (v ∷ []) in
      let more_won = length-append (keep is_win pnl) (v ∷ []) in
      record {
        count = rw win (omega (arith, h.count, more));
        winners = rw (win, won) (omega (arith, h.winners, more_won));
        losses = rw (win, not_lost) (omega (arith, h.losses, more));
        gross_win = rw (win, won) (sum-snoc_of _ v (keep is_win pnl) h.gross_win);
        gross_loss = rw (win, not_lost) h.gross_loss;
        equity = rw win (sum-snoc_of _ v pnl h.equity);
        mae = rw win (sum-snoc_of _ t.mae_price maes h.mae);
        mfe = rw win (sum-snoc_of _ t.mfe_price mfes h.mfe);
      }
  add_oos-HasSums pnl maes mfes o t false win loss h =
      let v = t.net_pnl_price in
      let not_won = keep-snoc_dropped is_win pnl v win in
      let lost = keep-snoc_kept is_loss pnl v loss in
      let more = length-append pnl (v ∷ []) in
      let more_lost = length-append (keep is_loss pnl) (v ∷ []) in
      record {
        count = rw win (omega (arith, h.count, more));
        winners = rw (win, not_won) h.winners;
        losses = rw (win, lost) (omega (arith, h.losses, more, more_lost));
        gross_win = rw (win, not_won) h.gross_win;
        gross_loss = rw (win, lost) (sum-snoc_of _ v (keep is_loss pnl) h.gross_loss);
        equity = rw win (sum-snoc_of _ v pnl h.equity);
        mae = rw win (sum-snoc_of _ t.mae_price maes h.mae);
        mfe = rw win (sum-snoc_of _ t.mfe_price mfes h.mfe);
      }

  add_oos_all-agrees :
      (trades : List (Trade A)) (pnl maes mfes : List A) (o : OosAccumulator A)
      → HasSums pnl maes mfes o
      → IsCurve (curve pnl flat) o
      → HasSums
          (pnl ++ map (λ t. t.net_pnl_price) trades)
          (maes ++ map (λ t. t.mae_price) trades)
          (mfes ++ map (λ t. t.mfe_price) trades)
          (add_oos_all trades o)
        × IsCurve (curve (pnl ++ map (λ t. t.net_pnl_price) trades) flat) (add_oos_all trades o)
  unfolding add_oos_all
  add_oos_all-agrees [] pnl maes mfes o h k =
      rw (append_nil pnl, append_nil maes, append_nil mfes) (h, k)
  add_oos_all-agrees (t ∷ trades) pnl maes mfes o h k =
      let v = t.net_pnl_price in
      let loss = is_loss-eq-not-is_win v in
      rw
        (
          append-snoc pnl v (map (λ t. t.net_pnl_price) trades),
          append-snoc maes t.mae_price (map (λ t. t.mae_price) trades),
          append-snoc mfes t.mfe_price (map (λ t. t.mfe_price) trades),
        )
        at
        (add_oos_all-agrees trades (pnl ++ (v ∷ [])) (maes ++ (t.mae_price ∷ []))
          (mfes ++ (t.mfe_price ∷ [])) (add_oos o t)
          (add_oos-HasSums pnl maes mfes o t (is_win v) refl loss h)
          (rw (curve-snoc pnl v flat)
            (add_oos-IsCurve (curve pnl flat) o t (is_win v) refl loss k)))

  oos_metrics-eq-summary :
      (pnl maes mfes : List A) (o : OosAccumulator A)
      → HasSums pnl maes mfes o
      → IsCurve (curve pnl flat) o
      → oos_metrics o ≡ summary pnl (n.sum maes) (n.sum mfes)
  unfolding oos_metrics summary
  oos_metrics-eq-summary pnl maes mfes o h k =
      let lost : o.count - o.winners ≡ length (keep is_loss pnl) =
        omega (arith, h.count, h.losses) in
      rw (
        lost,
        h.count,
        h.winners,
        h.gross_win,
        h.gross_loss,
        h.equity,
        h.mae,
        h.mfe,
        k.max_drawdown,
        k.max_consecutive,
        abs_zero (n.sum (keep is_loss pnl)),
      )

  exact-eq-metrics :
      (trades : List (Trade A))
      → oos_metrics (add_oos_all trades new_oos_accumulator) ≡ metrics trades
  unfolding metrics
  exact-eq-metrics trades =
      let (h, k) =
        add_oos_all-agrees trades [] [] [] new_oos_accumulator
          (record {
            count = refl;
            winners = refl;
            losses = omega arith;
            gross_win = sym sum_nil;
            gross_loss = sym sum_nil;
            equity = sym sum_nil;
            mae = sym sum_nil;
            mfe = sym sum_nil;
          })
          (record {
            equity = refl;
            peak = refl;
            max_drawdown = refl;
            consecutive = refl;
            max_consecutive = refl;
          }) in
      oos_metrics-eq-summary _ _ _ (add_oos_all trades new_oos_accumulator) h k

-- The numbers, with a `sum` that adds one item after the other from 0.
abbrev pub one_by_one : {A : Type 0} → Number A → Number A
one_by_one n = record n { sum = foldl n.add (n.of_ℕ 0) }

module _ {A : Type 0} ⦃n : Number A⦄ where
  foldl-add_snoc :
      (xs : List A) (x a : A) → foldl n.add a (xs ++ (x ∷ [])) ≡ n.add (foldl n.add a xs) x
  foldl-add_snoc [] x a = refl
  foldl-add_snoc (y ∷ xs) x a = foldl-add_snoc xs x (n.add a y)

  module _ (abs_zero : (a : A) → n.eq (abs_of a) nought ≡ n.eq a nought)
      (ordered : IsOrdered A) where
    IsExact-one_by_one : IsExact A ⦃n = one_by_one n⦄
    IsExact-one_by_one = record {
      sum_nil = refl;
      sum_snoc = λ xs x. foldl-add_snoc xs x nought;
      abs_zero = abs_zero;
      ordered = record {
        le_refl = ordered.le_refl;
        le_trans = ordered.le_trans;
        le_total = ordered.le_total;
        lt-eq-not-le = ordered.lt-eq-not-le;
      };
    }

    add_oos_all-one_by_one :
        (trades : List (Trade A)) (o : OosAccumulator A)
        → add_oos_all ⦃n = one_by_one n⦄ trades o ≡ add_oos_all trades o
    unfolding add_oos_all add_oos
    add_oos_all-one_by_one [] o = refl
    add_oos_all-one_by_one (t ∷ trades) o = add_oos_all-one_by_one trades (add_oos o t)

    curve-one_by_one : (xs : List A) (k : Curve A) → curve ⦃n = one_by_one n⦄ xs k ≡ curve xs k
    unfolding curve curve_step
    curve-one_by_one [] k = refl
    curve-one_by_one (x ∷ xs) k = curve-one_by_one xs (curve_step k x)

    -- If `abs` is 0 at 0 only and the numbers are ordered, the out-of-sample accumulator, after any
    -- trades, reports every metric that `_metrics` computes from the ledger of those trades with each
    -- `sum` added one by one from 0; and the count, the win rate, the drawdown and the longest run of
    -- losses, which need no `sum`, are those of `_metrics` whatever `sum` is.
    pub oos_metrics-eq-metrics :
        (trades : List (Trade A))
        → let reported = oos_metrics (add_oos_all trades new_oos_accumulator) in
          (reported ≡ metrics ⦃n = one_by_one n⦄ trades)
          × (reported.trade_count ≡ (metrics trades).trade_count)
          × (reported.win_rate ≡ (metrics trades).win_rate)
          × (reported.max_drawdown_price ≡ (metrics trades).max_drawdown_price)
          × (reported.max_consecutive_losses ≡ (metrics trades).max_consecutive_losses)
    unfolding oos_metrics metrics summary
    oos_metrics-eq-metrics trades =
        let same = add_oos_all-one_by_one trades new_oos_accumulator in
        let all : oos_metrics (add_oos_all trades new_oos_accumulator)
            ≡ metrics ⦃n = one_by_one n⦄ trades =
          ap oos_metrics (sym same)
          ∙ exact-eq-metrics ⦃n = one_by_one n⦄ IsExact-one_by_one trades in
        let walked = curve-one_by_one (map (λ t. t.net_pnl_price) trades) flat in
        (
          all,
          ap (λ (m : Metrics A). m.trade_count) all,
          ap (λ (m : Metrics A). m.win_rate) all,
          ap (λ (m : Metrics A). m.max_drawdown_price) all
              ∙ ap (λ (k : Curve A). n.round 6 k.max_drawdown) walked,
          ap (λ (m : Metrics A). m.max_consecutive_losses) all
              ∙ ap (λ (k : Curve A). k.max_consecutive) walked,
        )
