-- ===== src/LevelTouch/Measure/Sums.antt =====
-- However the cases are grouped, by regime alone or by year or month too, the tables hold the same
-- number of them.
use arkana.Base.{
  ℕ, ◌+◌, ◌≡◌, ap, Bool, List, [], ◌∷◌, String, if◌then◌else◌, Dict, Key, get, put, nat_key,
  string_key, arith, Bool-cases, inl, inr,
}
use arkana.LevelTouch.{Verdict}
use arkana.LevelTouch.Tally.{Tally, add}
use arkana.LevelTouch.Measure.{
  Case, pair_key, tally_or_new, tally_into, Tables, Touch, tally_name, tally_names, tally_outcomes,
  event_name,
}

-- The cases that a tally has been given.
abbrev pub cases_of : Tally → ℕ
cases_of t = t.target + t.stop + t.timeout + t.data_end

-- The cases under the keys that `p` selects.
abbrev pub total : {K : Type 0} → (K → Bool) → Dict K Tally → ℕ
total p [] = 0
total p ((k, t) ∷ d) = let rest = total p d in if p k then cases_of t + rest else rest

cases_of-add : (t : Tally) (v : Verdict) (steps : ℕ) → cases_of (add t v steps) ≡ cases_of t + 1
unfolding add
cases_of-add t Verdict.target steps = omega arith
cases_of-add t Verdict.stop steps = omega arith
cases_of-add t Verdict.timeout steps = omega arith
cases_of-add t Verdict.data_end steps = omega arith

total-put :
    {K : Type 0} ⦃key : Key K⦄ (p : K → Bool) (k : K) (t : Tally) (d : Dict K Tally)
    → cases_of t ≡ cases_of (tally_or_new (get k d)) + 1
    → total p (put k t d) ≡ total p d + (if p k then 1 else 0)
unfolding get put tally_or_new
total-put p k t [] h = ground arith
total-put ⦃key⦄ p k t ((j, u) ∷ d) h = elim (Bool-cases (key.same j k)) [
  | inl here ↦
      let same : p j ≡ p k = ap p ((key.same_iff j k).0 here) in
      let more : cases_of t ≡ cases_of u + 1 = rw here at h in rw here (ground (arith, same, more))
  | inr other ↦
      let more : cases_of t ≡ cases_of (tally_or_new (get k d)) + 1 = rw (other, get) at h in
      let rest = total-put p k t d more in rw (other, put) (ground (arith, rest))
]

total-tally_into :
    {K : Type 0} ⦃key : Key K⦄ (p : K → Bool) (k : K) (v : Verdict) (steps : ℕ) (d : Dict K Tally)
    → total p (tally_into k v steps d) ≡ total p d + (if p k then 1 else 0)
unfolding tally_into
total-tally_into p k v steps d = total-put p k _ d (cases_of-add (tally_or_new (get k d)) v steps)

abbrev pub of_case : {P : Type 0} → (Case → Bool) → Case × P → Bool
of_case p k = p k.0

abbrev pub Balanced : Tables → Type 0
Balanced t =
    (p : Case → Bool)
    → (total (of_case p) t.yearly ≡ total p t.overall)
      × (total (of_case p) t.monthly ≡ total p t.overall)

module _ (touch : Touch) (label : String) where
  tally_name-Balanced :
      (timeout : ℕ) (v : Verdict) (steps : ℕ) (name : String) (t : Tables)
      → Balanced t
      → Balanced (tally_name touch label timeout v steps name t)
  unfolding tally_name
  tally_name-Balanced timeout v steps name t h p =
      let case : Case = (event_name touch.event, (label, (timeout, name))) in
      let overall = total-tally_into p case v steps t.overall in
      let yearly = total-tally_into (of_case p) (case, touch.year) v steps t.yearly in
      let monthly = total-tally_into (of_case p) (case, touch.month) v steps t.monthly in
      (omega (arith, (h p).0, overall, yearly), omega (arith, (h p).1, overall, monthly))

  tally_names-Balanced :
      (timeout : ℕ) (v : Verdict) (steps : ℕ) (names : List String) (t : Tables)
      → Balanced t
      → Balanced (tally_names touch label timeout v steps names t)
  unfolding tally_names
  tally_names-Balanced timeout v steps [] t h = h
  tally_names-Balanced timeout v steps (name ∷ names) t h =
      tally_names-Balanced timeout v steps names _ (tally_name-Balanced timeout v steps name t h)

  pub tally_outcomes-Balanced :
      (outcomes : Dict ℕ (Verdict × ℕ)) (t : Tables)
      → Balanced t
      → Balanced (tally_outcomes touch label outcomes t)
  unfolding tally_outcomes
  tally_outcomes-Balanced [] t h = h
  tally_outcomes-Balanced ((timeout, (v, steps)) ∷ outcomes) t h =
      tally_outcomes-Balanced outcomes _ (tally_names-Balanced timeout v steps touch.names t h)
