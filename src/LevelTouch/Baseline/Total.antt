-- ===== src/LevelTouch/Baseline/Total.antt =====
-- The baseline never reads outside of the bars, and finds every tally that it adds to.
use arkana.Base.{
  ℕ, zero, suc, ◌+◌, ◌-◌, ◌%◌, ◌≤◌, ◌<◌, ◌≡◌, refl, Bool, Option, List, [], ◌∷◌, Result, ok, ◌>>=◌,
  Returned, arith, ltb, length, get_elem?-lt, Number, nought, Dict, put, nat_key, Has, put-Has,
  put-Has_self, put-keys, All, All-map, Option-cases, Bool-cases, inl, inr, if◌then◌else◌,
}
use arkana.Market.{Bar}
use arkana.LevelTouch.{Verdict, Walk, resolve, answers, answer, limit_of}
use arkana.LevelTouch.Tally.{Tally, new_tally, add}
use arkana.LevelTouch.Baseline.{
  add_all, new_tallies, nextint, next_state, one_case, case_of_index, sample, random_baseline,
  seed_of,
}

abbrev HasAll : {V : Type 0} → List ℕ → Dict ℕ V → Type 0
HasAll timeouts d = All (λ v. Has v d) timeouts

abbrev KeysAre : {V : Type 0} → (ℕ → Type 0) → Dict ℕ V → Type 0
KeysAre {V} P d = All (λ (i : ℕ × V). P i.0) d

answers-keys :
    (P : ℕ → Type 0) (w : Walk) (values : List ℕ) (outcome : Dict ℕ (Verdict × ℕ))
    → All P values
    → KeysAre P outcome
    → KeysAre P (answers w values outcome)
unfolding answers
answers-keys P w [] outcome p h = h
answers-keys P w (v ∷ values) outcome p h =
    answers-keys P w values _ p.1 (put-keys P v (answer w (limit_of v)) outcome p.0 h)

add_all-returns :
    (timeouts : List ℕ) (outcome : Dict ℕ (Verdict × ℕ)) (tallies : Dict ℕ Tally)
    → KeysAre (λ k. Has k tallies) outcome
    → HasAll timeouts tallies
    → (tallies' : Dict ℕ Tally) × (add_all outcome tallies ≡ ok tallies') × HasAll timeouts tallies'
unfolding add_all
add_all-returns timeouts [] tallies k h = (tallies, refl, h)
add_all-returns timeouts ((t, (v, steps)) ∷ outcome) tallies k h =
    let (tally, found) = k.0 in
    let next = put t (add tally v steps) tallies in
    let (tallies', added, h') =
      add_all-returns timeouts outcome next
        (All-map outcome (λ i has. put-Has t i.0 (add tally v steps) tallies has) k.1)
        (All-map timeouts (λ i has. put-Has t i (add tally v steps) tallies has) h) in
    (tallies', rw (found, add_all) added, h')

new_tallies-keep :
    (values : List ℕ) (k : ℕ) (tallies : Dict ℕ Tally)
    → Has k tallies
    → Has k (new_tallies values tallies)
unfolding new_tallies
new_tallies-keep [] k tallies h = h
new_tallies-keep (v ∷ values) k tallies h =
    new_tallies-keep values k _ (put-Has v k new_tally tallies h)

HasAll-new_tallies :
    (values : List ℕ) (tallies : Dict ℕ Tally) → HasAll values (new_tallies values tallies)
unfolding new_tallies
HasAll-new_tallies [] tallies = tt
HasAll-new_tallies (v ∷ values) tallies =
    (new_tallies-keep values v _ (put-Has_self v new_tally tallies), HasAll-new_tallies values _)

-- What `nextint` returns is below its bound, which is positive.
nextint-lt :
    (bound state : ℕ) → 0 < bound → (r : ℕ × ℕ) × (nextint bound state ≡ ok r) × (r.0 < bound)
unfolding nextint
nextint-lt zero state h = absurd (omega arith)
nextint-lt (suc bound) state h =
    ((next_state state % suc bound, next_state state), refl, grind arith)

module _ {A : Type 0} ⦃n : Number A⦄ (bars : List (Bar A)) (distance_of : ℕ → A → Option A)
    (long : Bool) (multiple spread : A) (first : ℕ) (others : List ℕ) where
  abbrev timeouts : List ℕ
  timeouts = first ∷ others

  resolve-keys :
      (index : ℕ) (entry stop target : A) (P : ℕ → Type 0)
      → All P timeouts
      → (outcome : Dict ℕ (Verdict × ℕ)) × (resolve bars index entry stop target long timeouts
          ≡ ok outcome)
        × KeysAre P outcome
  unfolding resolve
  resolve-keys index entry stop target P p = (_, refl, answers-keys P _ timeouts [] p tt)

  abbrev Kept : Result (Dict ℕ Tally) → Type 0
  Kept r = (tallies : Dict ℕ Tally) × (r ≡ ok tallies) × HasAll timeouts tallies

  abbrev case_at : ℕ → A → A → Dict ℕ Tally → Result (Dict ℕ Tally)
  case_at index entry distance tallies =
      let reach = n.mul distance multiple in
      let stop = if long then n.sub entry distance else n.add entry distance in
      let target = if long then n.add entry reach else n.sub entry reach in
      resolve bars (index + 1) entry stop target long timeouts >>= λ outcomes.
      add_all outcomes tallies

  case_at-returns :
      (index : ℕ) (entry distance : A) (tallies : Dict ℕ Tally)
      → HasAll timeouts tallies
      → Kept (case_at index entry distance tallies)
  case_at-returns index entry distance tallies h =
      let reach = n.mul distance multiple in
      let stop = if long then n.sub entry distance else n.add entry distance in
      let target = if long then n.add entry reach else n.sub entry reach in
      let (outcome, resolved, keys) =
        resolve-keys (index + 1) entry stop target (λ k. Has k tallies) h in
      let (tallies', added, h') = add_all-returns timeouts outcome tallies keys h in
      (tallies', rw resolved added, h')

  one_case-returns :
      (index : ℕ) (entry_bar : Bar A) (tallies : Dict ℕ Tally)
      → HasAll timeouts tallies
      → Kept (one_case bars distance_of long multiple spread timeouts index entry_bar tallies)
  unfolding one_case
  one_case-returns index entry_bar tallies h =
      let entry = n.add entry_bar.open_price (if long then spread else n.neg spread) in
      elim (Option-cases (distance_of index entry)) [
        | inl missing ↦ rw (missing, one_case) (tallies, refl, h)
        | inr (distance, given) ↦
            rw (given, one_case)
              (elim (Bool-cases (n.le distance nought)) [
                | inl skipped ↦ rw skipped (tallies, refl, h)
                | inr taken ↦ rw taken (case_at-returns index entry distance tallies h)
              ])
      ]

  case_of_index-returns :
      (index : ℕ) (tallies : Dict ℕ Tally)
      → index + 1 < length bars
      → HasAll timeouts tallies
      → Kept (case_of_index bars distance_of long multiple spread timeouts index tallies)
  unfolding case_of_index
  case_of_index-returns index tallies lt h =
      let (entry_bar, found) = get_elem?-lt bars (index + 1) lt in
      rw (found, case_of_index) (one_case-returns index entry_bar tallies h)

  sample-returns :
      (samples state : ℕ) (tallies : Dict ℕ Tally)
      → 3 ≤ length bars
      → HasAll timeouts tallies
      → Kept (sample bars distance_of long multiple spread timeouts samples state tallies)
  unfolding sample
  sample-returns zero state tallies long_enough h = (tallies, refl, h)
  sample-returns (suc samples) state tallies long_enough h =
      let (r, drawn, in_span) = nextint-lt (length bars - 2) state (omega arith) in
      let (mid, one, h') = case_of_index-returns r.0 tallies (omega arith) h in
      let (end, rest, h'') = sample-returns samples r.1 mid long_enough h' in
      (end, rw drawn (rw one rest), h'')

  -- For at least one timeout, whatever the bars, the distance rule, the digest and the number of
  -- samples, the baseline raises nothing: no index is out of range, no modulus is zero and no timeout
  -- is without a tally.
  pub random_baseline-returns :
      (digest samples : ℕ)
      → Returned (random_baseline bars distance_of long multiple spread timeouts digest samples)
  unfolding random_baseline
  random_baseline-returns digest samples = elim (Bool-cases (ltb (length bars) 3)) [
    | inl short ↦ rw short (_, refl)
    | inr enough ↦
        let (tallies, ran, h) =
          sample-returns samples (seed_of digest) (new_tallies timeouts []) (ground arith)
            (HasAll-new_tallies timeouts []) in
        rw (enough, ran) (_, refl)
  ]
