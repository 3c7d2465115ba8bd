-- ===== src/Gate/Spread.antt =====
-- When profit is not concentrated, and when it is large enough beside the losses.
use arkana.Base.{
  ◌≤◌, ◌≡◌, ◌↔◌, refl, sym, subst, Bool, true, false, List, [], ◌∷◌, map, Number, nought, IsOrdered,
  ◌≼◌, String, Dict, All, Bool-cases, inl, inr, length, arith,
}
use arkana.Metrics.{GateInputs, keep, is_win}
use arkana.Gate.{
  pass, fail, pass_or, positive_of, greatest, shares_status, positive_status, concentration,
  profit_factor_check,
}

module _ {A : Type 0} ⦃n : Number A⦄ where
  -- Some of the profits are positive, and none of those is more than `maximum` of their sum.
  abbrev pub IsSpread : A → List A → Type 0
  IsSpread maximum pnls =
      let total = n.sum (keep is_win pnls) in
      (n.le total nought ≡ false)
      × (1 ≤ length (keep is_win pnls))
      × All (λ pnl. n.le (n.div pnl total) maximum ≡ true) (keep is_win pnls)

  -- There is a profit, and it is more than `threshold` times the loss.
  abbrev pub HasFactor : A → GateInputs A → Type 0
  HasFactor threshold g =
      (n.eq g.gross_loss_price nought ≡ true → n.lt nought g.gross_profit_price ≡ true)
      × (n.eq g.gross_loss_price nought ≡ false
          → n.lt (n.mul threshold g.gross_loss_price) g.gross_profit_price ≡ true)

  pub profit_factor_check_iff :
      (threshold : A) (g : GateInputs A)
      → (profit_factor_check threshold g ≡ true) ↔ HasFactor threshold g
  unfolding profit_factor_check
  profit_factor_check_iff threshold g = elim (Bool-cases (n.eq g.gross_loss_price nought)) [
    | inl lossless ↦ rw lossless ((λ h. ((λ e. h), (λ e. cc e))), λ h. h.0 refl)
    | inr losses ↦ rw losses ((λ h. ((λ e. cc e), (λ e. h))), λ h. h.1 refl)
  ]

  positive_of-eq-keep : (pnls : List A) → positive_of pnls ≡ keep is_win pnls
  positive_of-eq-keep [] = refl
  positive_of-eq-keep (pnl ∷ rest) = rw (positive_of-eq-keep rest) refl

  module _ (ordered : IsOrdered A) (m : A) where
    greatest_iff :
        (a : A) (rest : List A) → (greatest a rest ≼ m) ↔ ((a ≼ m) × All (λ b. b ≼ m) rest)
    greatest_iff a [] = (λ h. (h, tt), λ h. h.0)
    greatest_iff a (b ∷ rest) = elim (Bool-cases (n.lt a b)) [
      | inl less ↦
          let ab : a ≼ b = ordered.le_total b a (ground (arith, ordered.lt-eq-not-le a b)) in
          let (to, from) = greatest_iff b rest in
          rw less (
            λ h. let (hb, hs) = to h in (ordered.le_trans a b m ab hb, (hb, hs)),
            λ h. from (h.1.0, h.1.1),
          )
      | inr more ↦
          let ba : b ≼ a = ground (arith, ordered.lt-eq-not-le a b) in
          let (to, from) = greatest_iff a rest in
          rw more (
            λ h. let (ha, hs) = to h in (ha, (ordered.le_trans b a m ba ha, hs)),
            λ h. from (h.0, h.1.1),
          )
    ]

    All-shares :
        (total : A) (xs : List A)
        → All (λ b. b ≼ m) (map (λ x. n.div x total) xs) ↔ All (λ x. n.div x total ≼ m) xs
    All-shares total [] = (λ h. h, λ h. h)
    All-shares total (x ∷ xs) =
        let (to, from) = All-shares total xs in (λ h. (h.0, to h.1), λ h. (h.0, from h.1))

    abbrev IsSpreadOver : List A → Type 0
    IsSpreadOver xs =
        (n.le (n.sum xs) nought ≡ false)
        × (1 ≤ length xs)
        × All (λ x. n.le (n.div x (n.sum xs)) m ≡ true) xs

    pass_or_iff : (b : Bool) → (pass_or fail b ≡ pass) ↔ (b ≡ true)
    pass_or_iff true = (λ h. refl, λ h. refl)
    pass_or_iff false = (λ h. cc h, λ h. cc h)

    positive_status_iff : (xs : List A) → ((positive_status m xs).0 ≡ pass) ↔ IsSpreadOver xs
    unfolding positive_status shares_status
    positive_status_iff [] = elim (Bool-cases (n.le (n.sum []) nought)) [
      | inl none_left ↦ rw none_left ((λ h. cc h), (λ h. cc (h.0)))
      | inr some_left ↦ rw some_left ((λ h. cc h), (λ h. absurd (omega (arith, h.1))))
    ]
    positive_status_iff (x ∷ xs) = elim (Bool-cases (n.le (n.sum (x ∷ xs)) nought)) [
      | inl none_left ↦ rw none_left ((λ h. cc h), (λ h. cc (h.0)))
      | inr some_left ↦
          let total = n.sum (x ∷ xs) in
          let shares = map (λ y. n.div y total) xs in
          let passed = pass_or_iff (n.le (greatest (n.div x total) shares) m) in
          let most = greatest_iff (n.div x total) shares in
          let each = All-shares total (x ∷ xs) in
          rw some_left (
            λ h. (refl, omega arith, each.0 (most.0 (passed.0 h))),
            λ h. passed.1 (most.1 (each.1 h.2)),
          )
    ]

    pub concentration_iff :
        (buckets : Dict String A)
        → ((concentration buckets m).0 ≡ pass)
          ↔ IsSpread m (map (λ (item : String × A). item.1) buckets)
    unfolding concentration
    concentration_iff buckets =
        let pnls = map (λ (item : String × A). item.1) buckets in
        subst (λ xs. ((positive_status m xs).0 ≡ pass) ↔ IsSpread m pnls)
          (sym (positive_of-eq-keep pnls)) (positive_status_iff (keep is_win pnls))
