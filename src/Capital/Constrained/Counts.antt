-- ===== src/Capital/Constrained/Counts.antt =====
-- Every trade of a constrained path is either executed or rejected.
use arkana.Base.{
  suc, ◌+◌, ◌≡◌, subst, List, [], ◌∷◌, ok, >>=-eq-ok, ok-injective, arith, length, Number, nought,
  max_of, Bool-cases, inl, inr,
}
use arkana.Kernel.{Trade}
use arkana.Capital.{Metadata, money, not_positive, trade_money_pnl, realize}
use arkana.Capital.Constrained.{
  Accumulator, MarginMetadata, Sizing, new_accumulator, Outcome, Rejection, Volume, volume,
  no_volume, cfd_margin, reject, volume_of, execute, with_volume, after_volume, observe, build_path,
  nonpositive_balance, insufficient_margin,
}

module _ {A : Type 0} ⦃n : Number A⦄ (nearest floor as_float : A → A) where
  -- A trade that is counted in `a` has been decided in `a'`.
  record IsDecided (a a' : Accumulator A) : Type 0 where
    source : a'.source_count ≡ a.source_count
    decided : a'.executed + a'.rejected ≡ suc (a.executed + a.rejected)
    results :
        a'.account.wins + a'.account.losses + a.executed
        ≡ a.account.wins + a.account.losses + a'.executed

  reject-IsDecided :
      (reason : Rejection) (a : Accumulator A)
      → IsDecided a (reject nearest floor as_float reason a).1
  unfolding reject
  reject-IsDecided reason a = omega arith

  execute-IsDecided :
      (trade : Trade A) (v margin : A) (a : Accumulator A) {o : Outcome × Accumulator A}
      → execute nearest floor as_float trade v margin a ≡ ok o
      → IsDecided a o.1
  unfolding execute realize
  execute-IsDecided trade v margin a e =
      let (pnl, paid, done) = >>=-eq-ok (trade_money_pnl a.metadata trade (as_float v)) _ e in
      subst (λ (o : Outcome × Accumulator A). IsDecided a o.1) (ok-injective done) (ground arith)

  with_volume-IsDecided :
      (trade : Trade A) (v : A) (a : Accumulator A) {o : Outcome × Accumulator A}
      → with_volume nearest floor as_float trade v a ≡ ok o
      → IsDecided a o.1
  unfolding with_volume
  with_volume-IsDecided trade v a e =
      let (required, _, rest) =
        >>=-eq-ok
          (cfd_margin nearest floor as_float a.metadata a.margin_metadata trade.side
            (as_float trade.entry_price) (as_float v))
          _ e in
      let margin = money required in
      let a' = record a { max_evaluated_margin = max_of a.max_evaluated_margin margin } in
      let ceiling = money (n.mul (max_of a.account.balance nought) a.max_margin_fraction) in
      elim (Bool-cases (not_positive a.account.balance)) [
        | inl broke ↦
            subst (λ (o : Outcome × Accumulator A). IsDecided a o.1)
              (ok-injective (rw broke at rest))
              (let d = reject-IsDecided nonpositive_balance a' in omega (arith, d))
        | inr funded ↦ elim (Bool-cases (n.lt ceiling margin)) [
          | inl over ↦
              subst (λ (o : Outcome × Accumulator A). IsDecided a o.1)
                (ok-injective (rw (funded, over) at rest))
                (let d = reject-IsDecided insufficient_margin a' in omega (arith, d))
          | inr within ↦
              let d = execute-IsDecided trade v margin a' (rw (funded, within) at rest) in
              omega (arith, d)
        ]
      ]

  after_volume-IsDecided :
      (v : Volume A) (trade : Trade A) (a : Accumulator A) {o : Outcome × Accumulator A}
      → after_volume nearest floor as_float v trade a ≡ ok o
      → IsDecided a o.1
  unfolding after_volume
  after_volume-IsDecided (no_volume reason) trade a e =
      subst (λ (o : Outcome × Accumulator A). IsDecided a o.1) (ok-injective e)
        (reject-IsDecided reason a)
  after_volume-IsDecided (volume v) trade a e = with_volume-IsDecided trade v a e

  observe-IsDecided :
      (a : Accumulator A) (trade : Trade A) {o : Outcome × Accumulator A}
      → observe nearest floor as_float a trade ≡ ok o
      → (o.1.source_count ≡ suc a.source_count)
        × (o.1.executed + o.1.rejected ≡ suc (a.executed + a.rejected))
        × (o.1.account.wins + o.1.account.losses + a.executed
            ≡ a.account.wins + a.account.losses + o.1.executed)
  unfolding observe after_volume
  observe-IsDecided a trade {o} e =
      let a' = record a {
        source_count = a.source_count + 1;
        observed_price_pnl = n.add a.observed_price_pnl trade.net_pnl_price;
      } in
      let (v, sized, rest) = >>=-eq-ok (volume_of nearest floor as_float a.sizing a' trade) _ e in
      let d : IsDecided a' o.1 = after_volume-IsDecided v trade a' rest in omega (arith, d)

  build_path-counts :
      (trades : List (Trade A)) (a : Accumulator A) {o : List Outcome × Accumulator A}
      → build_path nearest floor as_float trades a ≡ ok o
      → (length o.0 ≡ length trades)
        × (o.1.executed + o.1.rejected ≡ a.executed + a.rejected + length trades)
        × (o.1.source_count ≡ a.source_count + length trades)
        × (o.1.account.wins + o.1.account.losses + a.executed
            ≡ a.account.wins + a.account.losses + o.1.executed)
  unfolding build_path
  build_path-counts [] a {o} e =
      subst
        (λ (o : List Outcome × Accumulator A).
          (length o.0 ≡ 0)
          × (o.1.executed + o.1.rejected ≡ a.executed + a.rejected + 0)
          × (o.1.source_count ≡ a.source_count + 0)
          × (o.1.account.wins + o.1.account.losses + a.executed
              ≡ a.account.wins + a.account.losses + o.1.executed))
        (ok-injective e) (omega arith)
  build_path-counts (trade ∷ rest) a {o} e =
      let (one, observed, running) = >>=-eq-ok (observe nearest floor as_float a trade) _ e in
      let (others, ran, done) =
        >>=-eq-ok (build_path nearest floor as_float rest one.1) _ running in
      let first = observe-IsDecided a trade observed in
      let later = build_path-counts rest one.1 ran in
      subst
        (λ (o : List Outcome × Accumulator A).
          (length o.0 ≡ suc (length rest))
          × (o.1.executed + o.1.rejected ≡ a.executed + a.rejected + suc (length rest))
          × (o.1.source_count ≡ a.source_count + suc (length rest))
          × (o.1.account.wins + o.1.account.losses + a.executed
              ≡ a.account.wins + a.account.losses + o.1.executed))
        (ok-injective done) (omega (arith, first, later))

  -- A constrained path that is built without an error has one outcome for each trade of the ledger; the
  -- executed and the rejected trades make up the ledger, and the wins and the losses the executed ones.
  pub build_path-new_accumulator :
      (metadata : Metadata A) (margin : MarginMetadata A) (sizing : Sizing A)
      (fraction capital commission : A) (trades : List (Trade A)) (outcomes : List Outcome)
      (last : Accumulator A)
      → build_path nearest floor as_float trades (
          new_accumulator nearest floor as_float metadata margin sizing fraction capital commission)
        ≡ ok (outcomes, last)
      → (length outcomes ≡ length trades)
        × (last.executed + last.rejected ≡ length trades)
        × (last.source_count ≡ length trades)
        × (last.account.wins + last.account.losses ≡ last.executed)
  build_path-new_accumulator metadata margin sizing fraction capital commission trades outcomes last
        e =
      omega (arith, build_path-counts trades _ e)
