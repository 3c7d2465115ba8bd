-- ===== src/Indicators/Window.antt =====
-- Each indicator reads only the end of the list that it is given.
use arkana.Base.{
  ℕ, zero, suc, ◌+◌, ◌-◌, ◌≤◌, ◌≡◌, refl, sym, ap, ◌∙◌, List, [], ◌∷◌, map, arith, ltb, length,
  length-drop, drop, Number,
}
use arkana.Market.{Bar}
use arkana.Indicators.{
  Method, suffix, warmup_bars, moving_average, relative_strength_index, bollinger_bands,
  average_true_range,
}

module _ {B : Type 0} where
  drop-drop : (m k : ℕ) (xs : List B) → drop k (drop m xs) ≡ drop (m + k) xs
  drop-drop zero k xs = let e : 0 + k ≡ k = omega arith in ap (λ i. drop i xs) (sym e)
  drop-drop (suc m) zero [] = let e : suc m + 0 ≡ suc m = omega arith in ap (λ i. drop i []) (sym e)
  drop-drop (suc m) (suc k) [] =
      let e : suc m + suc k ≡ suc (m + suc k) = omega arith in ap (λ i. drop i []) (sym e)
  drop-drop (suc m) k (x ∷ xs) =
      let e : suc m + k ≡ suc (m + k) = omega arith in
      drop-drop m k xs ∙ ap (λ i. drop i (x ∷ xs)) (sym e)

  pub length-suffix :
      (k : ℕ) (xs : List B) → 1 ≤ k → length (suffix k xs) ≡ length xs - (length xs - k)
  length-suffix zero xs h = absurd (omega (arith, h))
  length-suffix (suc k) xs h = length-drop (length xs - suc k) xs

  -- A shorter end of an end is the end itself.
  pub suffix-suffix : (j k : ℕ) (xs : List B) → 1 ≤ j → j ≤ k → suffix j (suffix k xs) ≡ suffix j xs
  suffix-suffix zero k xs h i = absurd (omega (arith, h))
  suffix-suffix (suc j) zero xs h i = absurd (omega (arith, i))
  suffix-suffix (suc j) (suc k) xs h i =
      let skipped = length xs - suc k in
      let e : skipped + (length (drop skipped xs) - suc j) ≡ length xs - suc j =
        omega (arith, length-drop skipped xs) in
      drop-drop skipped (length (drop skipped xs) - suc j) xs ∙ ap (λ m. drop m xs) e

  -- Enough items are in the end just when they are in the list.
  pub ltb-suffix :
      (j k : ℕ) (xs : List B) → 1 ≤ k → j ≤ k → ltb (length (suffix k xs)) j ≡ ltb (length xs) j
  ltb-suffix j k xs h i = ground (arith, length-suffix k xs h)

pub length-map : {B C : Type 0} (f : B → C) (xs : List B) → length (map f xs) ≡ length xs
length-map f [] = refl
length-map f (x ∷ xs) = ap suc (length-map f xs)

drop-map : {B C : Type 0} (f : B → C) (m : ℕ) (xs : List B) → drop m (map f xs) ≡ map f (drop m xs)
drop-map f zero xs = refl
drop-map f (suc m) [] = refl
drop-map f (suc m) (x ∷ xs) = drop-map f m xs

pub suffix-map :
    {B C : Type 0} (f : B → C) (k : ℕ) (xs : List B) → suffix k (map f xs) ≡ map f (suffix k xs)
suffix-map f zero xs = refl
suffix-map f (suc k) xs =
    ap (λ m. drop (m - suc k) (map f xs)) (length-map f xs) ∙ drop-map f (length xs - suc k) xs

pub le-warmup_bars : (period : ℕ) → period + 1 ≤ warmup_bars period
unfolding warmup_bars
le-warmup_bars period = ground arith

pub warmup_bars-le : (fast slow : ℕ) → fast ≤ slow → warmup_bars fast ≤ warmup_bars slow
unfolding warmup_bars
warmup_bars-le fast slow h = ground arith

-- The items that a method needs.
abbrev pub span_of : Method → ℕ → ℕ
span_of Method.sma period = period
span_of Method.ema period = warmup_bars period

module _ {A : Type 0} ⦃n : Number A⦄ where
  pub moving_average-suffix :
      (closes : List A) (period k : ℕ) (m : Method)
      → 1 ≤ period
      → span_of m period ≤ k
      → moving_average (suffix k closes) period m ≡ moving_average closes period m
  unfolding moving_average
  moving_average-suffix closes period k Method.sma h i =
      rw (ltb-suffix period k closes (omega arith) i, suffix-suffix period k closes h i)
  moving_average-suffix closes period k Method.ema h i =
      let some_bars : 1 ≤ warmup_bars period = omega (arith, le-warmup_bars period) in
      rw (
        ltb-suffix (warmup_bars period) k closes (omega arith) i,
        suffix-suffix (warmup_bars period) k closes some_bars i,
      )

  pub relative_strength_index-suffix :
      (closes : List A) (period k : ℕ)
      → warmup_bars period + 1 ≤ k
      → relative_strength_index (suffix k closes) period ≡ relative_strength_index closes period
  unfolding relative_strength_index
  relative_strength_index-suffix closes period k i = rw (
    ltb-suffix (warmup_bars period + 1) k closes (omega arith) i,
    suffix-suffix (warmup_bars period + 1) k closes (omega arith) i,
  )

  pub bollinger_bands-suffix :
      (pstdev : List A → A) (closes : List A) (period k : ℕ) (deviations : A)
      → 1 ≤ period
      → period ≤ k
      → bollinger_bands pstdev (suffix k closes) period deviations
        ≡ bollinger_bands pstdev closes period deviations
  unfolding bollinger_bands
  bollinger_bands-suffix pstdev closes period k deviations h i =
      rw (ltb-suffix period k closes (omega arith) i, suffix-suffix period k closes h i)

  pub average_true_range-suffix :
      (bars : List (Bar A)) (period k : ℕ)
      → period + 1 ≤ k
      → average_true_range (suffix k bars) period ≡ average_true_range bars period
  unfolding average_true_range
  average_true_range-suffix bars period k i = rw (
    ltb-suffix (period + 1) k bars (omega arith) i,
    suffix-suffix (period + 1) k bars (omega arith) i,
  )
