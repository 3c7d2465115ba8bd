-- ===== src/LevelTouch/Scan/Limits.antt =====
-- What a request that is not refused can ask for.
use arkana.Base.{
  ℕ, zero, suc, ◌+◌, ◌-◌, ◌≤◌, ◌≡◌, refl, Option, List, [], ◌∷◌, ◌++◌, ok, >>=-eq-ok, ok-injective,
  String, arith, length, length-append, Number, ℤ, pos, negsuc, subst,
}
use arkana.Market.{Bar}
use arkana.Indicators.{Method}
use arkana.LevelTouch.Scan.{
  Given, left_out, not_understood, given, ScanRequest, ScanSpec, between, choose_kinds, check_span,
  choose, choose_threshold, normalize_scan, rows_of, scan_kinds, scan_bars,
}

pub between-bounds :
    (low high default : ℕ) (message : String) (g : Given ℤ) {k : ℕ}
    → low ≤ default
    → default ≤ high
    → between low high default message g ≡ ok k
    → (low ≤ k) × (k ≤ high)
unfolding between
between-bounds low high default message left_out h i e = ground arith
between-bounds low high default message not_understood h i e = cc
between-bounds low high default message (given (negsuc k)) h i e = cc
between-bounds low high default message (given (pos k)) h i e = ground arith

check_span-bounds :
    (lowest highest : ℕ) {u : Unit {0}}
    → check_span lowest highest ≡ ok u
    → (lowest ≤ highest) × (highest + 1 - lowest ≤ 60)
unfolding check_span
check_span-bounds lowest highest e = ground arith

choose_kinds-bound :
    (g : Given (List (Option Method))) {kinds : List Method}
    → choose_kinds g ≡ ok kinds
    → length kinds ≤ 2
unfolding choose_kinds
choose_kinds-bound left_out e = subst (λ k. length k ≤ 2) (ok-injective e) (omega arith)
choose_kinds-bound not_understood e = cc
choose_kinds-bound (given []) e = cc
choose_kinds-bound (given (kind ∷ kinds)) e = ground arith

module _ {A : Type 0} ⦃n : Number A⦄ where
  length-rows_of :
      (bars : List (Bar A)) (spec : ScanSpec A) (kind : Method) (period count : ℕ)
      → length (rows_of bars spec kind period count) ≡ count
  unfolding rows_of
  length-rows_of bars spec kind period zero = refl
  length-rows_of bars spec kind period (suc count) =
      omega (arith, length-rows_of bars spec kind (period + 1) count)

  length-scan_kinds :
      (bars : List (Bar A)) (spec : ScanSpec A) (kinds : List Method)
      → length kinds ≤ 2
      → spec.maximum_period + 1 - spec.minimum_period ≤ 60
      → length (scan_kinds bars spec kinds) ≤ 120
  unfolding scan_kinds
  length-scan_kinds bars spec [] h i = omega arith
  length-scan_kinds bars spec (a ∷ []) h i =
      let count = spec.maximum_period + 1 - spec.minimum_period in
      let of_a = rows_of bars spec a spec.minimum_period count in
      omega (arith, length-append of_a [], length-rows_of bars spec a spec.minimum_period count)
  length-scan_kinds bars spec (a ∷ b ∷ []) h i =
      let count = spec.maximum_period + 1 - spec.minimum_period in
      let of_a = rows_of bars spec a spec.minimum_period count in
      let of_b = rows_of bars spec b spec.minimum_period count in
      omega (
        arith,
        length-append of_a (of_b ++ []),
        length-append of_b [],
        length-rows_of bars spec a spec.minimum_period count,
        length-rows_of bars spec b spec.minimum_period count,
      )
  length-scan_kinds bars spec (a ∷ b ∷ c ∷ kinds) h i = absurd (omega (arith, h))

  abbrev IsBounded : List (Bar A) → ScanSpec A → Type 0
  IsBounded bars s =
      (2 ≤ s.minimum_period)
      × (s.minimum_period ≤ s.maximum_period)
      × (s.maximum_period ≤ 200)
      × (2 ≤ s.lookback)
      × (s.lookback ≤ 500)
      × (length (scan_bars bars s) ≤ 120)

  -- A sweep that is not refused has its periods in order between 2 and 200 and its lookback between 2
  -- and 500, and reports at most 120 averages, whatever the bars.
  pub normalize_scan-scan_bars :
      (r : ScanRequest A) (s : ScanSpec A) (bars : List (Bar A))
      → normalize_scan r ≡ ok s
      → (2 ≤ s.minimum_period)
        × (s.minimum_period ≤ s.maximum_period)
        × (s.maximum_period ≤ 200)
        × (2 ≤ s.lookback)
        × (s.lookback ≤ 500)
        × (length (scan_bars bars s) ≤ 120)
  unfolding normalize_scan scan_bars
  normalize_scan-scan_bars r s bars e =
      let (timeframe, _, e₁) = >>=-eq-ok (choose _ _ r.timeframe) _ e in
      let (kinds, chosen, e₂) = >>=-eq-ok (choose_kinds r.kinds) _ e₁ in
      let (lowest, low, e₃) = >>=-eq-ok (between 2 200 20 _ r.minimum_period) _ e₂ in
      let (highest, high, e₄) = >>=-eq-ok (between 2 200 50 _ r.maximum_period) _ e₃ in
      let (checked, in_span, e₅) = >>=-eq-ok (check_span lowest highest) _ e₄ in
      let (coverage, _, e₆) = >>=-eq-ok (choose _ _ r.coverage) _ e₅ in
      let (lookback, back, e₇) = >>=-eq-ok (between 2 500 20 _ r.lookback) _ e₆ in
      let (threshold, _, e₈) = >>=-eq-ok (choose_threshold r.threshold_percent) _ e₇ in
      let low_bounds = between-bounds 2 200 20 _ r.minimum_period (omega arith) (omega arith) low in
      let high_bounds =
        between-bounds 2 200 50 _ r.maximum_period (omega arith) (omega arith) high in
      let back_bounds = between-bounds 2 500 20 _ r.lookback (omega arith) (omega arith) back in
      let span = check_span-bounds lowest highest in_span in
      let accepted : ScanSpec A = record {
        timeframe = timeframe;
        kinds = kinds;
        minimum_period = lowest;
        maximum_period = highest;
        coverage = coverage;
        lookback = lookback;
        threshold = threshold;
      } in
      subst (IsBounded bars) (ok-injective e₈) (
        low_bounds.0,
        span.0,
        high_bounds.1,
        back_bounds.0,
        back_bounds.1,
        length-scan_kinds bars accepted kinds (choose_kinds-bound r.kinds chosen) span.1,
      )
