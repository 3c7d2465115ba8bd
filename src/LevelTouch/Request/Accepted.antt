-- ===== src/LevelTouch/Request/Accepted.antt =====
-- What a request that is not refused can ask for.
use arkana.Base.{
  ℕ, zero, suc, ◌≤◌, ◌<◌, ◌≡◌, refl, List, [], ◌∷◌, ok, >>=-eq-ok, ok-injective, String, arith, ltb,
  ◌==◌, length, All, Number, ℤ, pos, negsuc, subst, Bool-cases, inl, inr,
}
use arkana.LevelTouch.Scan.{
  Given, left_out, not_understood, given, choose, between, choose_threshold,
}
use arkana.LevelTouch.Scan.Limits.{between-bounds}
use arkana.LevelTouch.Request.{
  DistanceRequest, Distance, SpecRequest, Spec, check_count, clean_timeout, clean_timeouts,
  insert_once, sorted_set, choose_timeouts, clean_distance, clean_distances, choose_distances,
  choose_multiple, choose_spread, normalize_spec,
}

check_count-bounds :
    (count : ℕ) (message : String) {u : Unit {0}}
    → check_count count message ≡ ok u
    → (1 ≤ count) × (count ≤ 4)
unfolding check_count
check_count-bounds count message e = ground arith

clean_timeout-bound : (g : Given ℤ) {k : ℕ} → clean_timeout g ≡ ok k → k ≤ 480
unfolding clean_timeout
clean_timeout-bound left_out e = cc
clean_timeout-bound not_understood e = cc
clean_timeout-bound (given (negsuc j)) e = cc
clean_timeout-bound (given (pos j)) e = ground arith

clean_timeouts-bounds :
    (gs : List (Given ℤ)) {values : List ℕ}
    → clean_timeouts gs ≡ ok values
    → (length values ≡ length gs) × All (λ v. v ≤ 480) values
unfolding clean_timeouts
clean_timeouts-bounds [] e =
    subst (λ vs. (length vs ≡ 0) × All (λ v. v ≤ 480) vs) (ok-injective e) (refl, tt)
clean_timeouts-bounds (g ∷ gs) e =
    let (value, cleaned, e₁) = >>=-eq-ok (clean_timeout g) _ e in
    let (values, others, e₂) = >>=-eq-ok (clean_timeouts gs) _ e₁ in
    let (same, bounded) = clean_timeouts-bounds gs others in
    subst (λ vs. (length vs ≡ suc (length gs)) × All (λ v. v ≤ 480) vs) (ok-injective e₂)
      (omega (arith, same), (clean_timeout-bound g cleaned, bounded))

-- Strictly ascending values.
abbrev pub IsAscending : List ℕ → Type 0
IsAscending [] = Unit
IsAscending (a ∷ []) = Unit
IsAscending (a ∷ b ∷ rest) = (a < b) × IsAscending (b ∷ rest)

-- What the insertion of a value below or at 480 keeps.
abbrev IsTimeouts : ℕ → List ℕ → Type 0
IsTimeouts most values = (length values ≤ most) × All (λ v. v ≤ 480) values

insert_once-IsTimeouts :
    (a most : ℕ) (values : List ℕ)
    → a ≤ 480
    → IsTimeouts most values
    → IsTimeouts (suc most) (insert_once a values) × (1 ≤ length (insert_once a values))
unfolding insert_once
insert_once-IsTimeouts a most [] h i = ((omega arith, (h, tt)), omega arith)
insert_once-IsTimeouts a zero (b ∷ rest) h i = absurd (omega (arith, i.0))
insert_once-IsTimeouts a (suc most) (b ∷ rest) h (i, (p, ps)) = elim (Bool-cases (ltb a b)) [
  | inl below ↦ rw below ((omega (arith, i), (h, (p, ps))), omega arith)
  | inr not_below ↦ elim (Bool-cases (a == b)) [
    | inl there ↦ rw (not_below, there) ((omega (arith, i), (p, ps)), omega arith)
    | inr above ↦
        let ((j, q), _) = insert_once-IsTimeouts a most rest h (omega (arith, i), ps) in
        rw (not_below, above) ((omega (arith, j), (p, q)), omega arith)
  ]
]

insert_once-IsAscending_after :
    (a b : ℕ) (values : List ℕ)
    → b < a
    → IsAscending (b ∷ values)
    → IsAscending (b ∷ insert_once a values)
unfolding insert_once
insert_once-IsAscending_after a b [] h i = (h, tt)
insert_once-IsAscending_after a b (c ∷ rest) h (i, ps) = elim (Bool-cases (ltb a c)) [
  | inl below ↦ rw below (h, (ground arith, ps))
  | inr not_below ↦ elim (Bool-cases (a == c)) [
    | inl there ↦ rw (not_below, there) (i, ps)
    | inr above ↦
        rw (not_below, above) (i, insert_once-IsAscending_after a c rest (ground arith) ps)
  ]
]

insert_once-IsAscending :
    (a : ℕ) (values : List ℕ) → IsAscending values → IsAscending (insert_once a values)
unfolding insert_once
insert_once-IsAscending a [] h = tt
insert_once-IsAscending a (b ∷ rest) h = elim (Bool-cases (ltb a b)) [
  | inl below ↦ rw below (ground arith, h)
  | inr not_below ↦ elim (Bool-cases (a == b)) [
    | inl there ↦ rw (not_below, there) h
    | inr above ↦ rw (not_below, above) (insert_once-IsAscending_after a b rest (ground arith) h)
  ]
]

sorted_set-IsTimeouts :
    (values : List ℕ) → All (λ v. v ≤ 480) values → IsTimeouts (length values) (sorted_set values)
unfolding sorted_set
sorted_set-IsTimeouts [] h = (omega arith, tt)
sorted_set-IsTimeouts (a ∷ values) (p, ps) =
    (insert_once-IsTimeouts a (length values) (sorted_set values) p
      (sorted_set-IsTimeouts values ps)).0

sorted_set-IsAscending : (values : List ℕ) → IsAscending (sorted_set values)
unfolding sorted_set
sorted_set-IsAscending [] = tt
sorted_set-IsAscending (a ∷ values) =
    insert_once-IsAscending a (sorted_set values) (sorted_set-IsAscending values)

abbrev AreTimeouts : List ℕ → Type 0
AreTimeouts ts = (1 ≤ length ts) × (length ts ≤ 4) × All (λ v. v ≤ 480) ts × IsAscending ts

sorted_set-AreTimeouts :
    (values : List ℕ)
    → 1 ≤ length values
    → length values ≤ 4
    → All (λ v. v ≤ 480) values
    → AreTimeouts (sorted_set values)
unfolding sorted_set
sorted_set-AreTimeouts [] h i ps = absurd (omega (arith, h))
sorted_set-AreTimeouts (a ∷ values) h i (p, ps) =
    let ((j, q), some_value) =
      insert_once-IsTimeouts a (length values) (sorted_set values) p
        (sorted_set-IsTimeouts values ps) in
    (some_value, omega (arith, j), q, sorted_set-IsAscending (a ∷ values))

choose_timeouts-AreTimeouts :
    (g : Given (List (Given ℤ))) {ts : List ℕ} → choose_timeouts g ≡ ok ts → AreTimeouts ts
unfolding choose_timeouts
choose_timeouts-AreTimeouts left_out e =
    subst AreTimeouts (ok-injective e) (omega arith, omega arith, (omega arith, tt), tt)
choose_timeouts-AreTimeouts not_understood e = cc
choose_timeouts-AreTimeouts (given []) e =
    subst AreTimeouts (ok-injective e) (omega arith, omega arith, (omega arith, tt), tt)
choose_timeouts-AreTimeouts (given (g ∷ gs)) e =
    let (u, counted, e₁) = >>=-eq-ok (check_count (length (g ∷ gs)) _) _ e in
    let (values, cleaned, e₂) = >>=-eq-ok (clean_timeouts (g ∷ gs)) _ e₁ in
    let (same, bounded) = clean_timeouts-bounds (g ∷ gs) cleaned in
    let (low, high) = check_count-bounds (length (g ∷ gs)) _ counted in
    subst AreTimeouts (ok-injective e₂)
      (sorted_set-AreTimeouts values (omega (arith, same, low)) (omega (arith, same, high)) bounded)

module _ {A : Type 0} ⦃n : Number A⦄ where
  length-clean_distances :
      (ds : List (DistanceRequest A)) {out : List (Distance A)}
      → clean_distances ds ≡ ok out
      → length out ≡ length ds
  unfolding clean_distances
  length-clean_distances [] e = subst (λ ds. length ds ≡ 0) (ok-injective e) refl
  length-clean_distances (d ∷ ds) e =
      let (distance, _, e₁) = >>=-eq-ok (clean_distance d) _ e in
      let (distances, others, e₂) = >>=-eq-ok (clean_distances ds) _ e₁ in
      let same = length-clean_distances ds others in
      subst (λ out. length out ≡ suc (length ds)) (ok-injective e₂) (omega (arith, same))

  abbrev AreDistances : List (Distance A) → Type 0
  AreDistances ds = (1 ≤ length ds) × (length ds ≤ 4)

  choose_distances-AreDistances :
      (g : Given (List (DistanceRequest A))) {ds : List (Distance A)}
      → choose_distances g ≡ ok ds
      → AreDistances ds
  unfolding choose_distances
  choose_distances-AreDistances left_out e =
      subst AreDistances (ok-injective e) (omega arith, omega arith)
  choose_distances-AreDistances not_understood e = cc
  choose_distances-AreDistances (given requests) e =
      let (u, counted, cleaned) = >>=-eq-ok (check_count (length requests) _) _ e in
      let same = length-clean_distances requests cleaned in
      let (low, high) = check_count-bounds (length requests) _ counted in
      (omega (arith, same, low), omega (arith, same, high))

  abbrev IsAccepted : Spec A → Type 0
  IsAccepted s =
      ((1 ≤ s.period) × (s.period ≤ 500)) × AreDistances s.distances × AreTimeouts s.timeouts

  -- A request that is not refused has a period from 1 to 500, from 1 to 4 distances, and from 1 to 4
  -- timeouts of at most 480 bars, strictly ascending.
  pub normalize_spec-IsAccepted :
      (r : SpecRequest A) (s : Spec A)
      → normalize_spec r ≡ ok s
      → ((1 ≤ s.period) × (s.period ≤ 500))
        × ((1 ≤ length s.distances) × (length s.distances ≤ 4))
        × ((1 ≤ length s.timeouts)
            × (length s.timeouts ≤ 4)
            × All (λ v. v ≤ 480) s.timeouts
            × IsAscending s.timeouts)
  unfolding normalize_spec
  normalize_spec-IsAccepted r s e =
      let (timeframe, _, e₁) = >>=-eq-ok (choose _ _ r.timeframe) _ e in
      let (kind, _, e₂) = >>=-eq-ok (choose _ _ r.kind) _ e₁ in
      let (period, in_range, e₃) = >>=-eq-ok (between 1 500 23 _ r.period) _ e₂ in
      let (distances, some_distances, e₄) = >>=-eq-ok (choose_distances r.distances) _ e₃ in
      let (timeouts, some_timeouts, e₅) = >>=-eq-ok (choose_timeouts r.timeouts) _ e₄ in
      let (lookback, _, e₆) = >>=-eq-ok (between 2 500 20 _ r.lookback) _ e₅ in
      let (threshold, _, e₇) = >>=-eq-ok (choose_threshold r.threshold_percent) _ e₆ in
      let (multiple, _, e₈) = >>=-eq-ok (choose_multiple r.target_multiple) _ e₇ in
      let (coverage, _, e₉) = >>=-eq-ok (choose _ _ r.coverage) _ e₈ in
      let (spread, _, finished) = >>=-eq-ok (choose_spread r.spread_price) _ e₉ in
      let accepted : Spec A = record {
        timeframe = timeframe;
        kind = kind;
        period = period;
        distances = distances;
        timeouts = timeouts;
        lookback = lookback;
        threshold = threshold;
        target_multiple = multiple;
        coverage = coverage;
        spread_price = spread;
      } in
      let done : accepted ≡ s = ok-injective finished in
      subst IsAccepted done (
        between-bounds 1 500 23 _ r.period (omega arith) (omega arith) in_range,
        choose_distances-AreDistances r.distances some_distances,
        choose_timeouts-AreTimeouts r.timeouts some_timeouts,
      )
