-- ===== src/Router/Selection.antt =====
-- When a direction is decided, and when there is no trade.
use arkana.Base.{
  ◌≤◌, ◌≡◌, refl, sym, ap, ◌∙◌, subst, Bool, true, false, Option, none, some, List, [], ◌∷◌, ◌++◌,
  map, Result, ok, raised, String, length, str_eq, eq_iff, text_in, All, Bool-cases, inl, inr,
  arith, sort_texts, insert_text, codes, codes_le,
}
use arkana.Router.{
  Eligibility, CandidateStatus, blocked, signal, no_signal, Candidate, Sources, evaluated,
  candidate_of, has_dataset_conflict, keep_signal, signals_of, unique, one_signal, conclude_on,
  conclude,
}

-- A candidate that signals comes from an exact, eligible snapshot, and the cohort has one data set.
abbrev IsSound : Bool → Candidate → Type 0
IsSound conflict c =
    (c.eligibility_exact ≡ true) × (c.eligibility_status ≡ "ELIGIBLE") × (conflict ≡ false)

evaluated-fields :
    (e : Eligibility) (r : Result (Bool × Option String))
    → ((evaluated e r).eligibility_exact ≡ true) × ((evaluated e r).eligibility_status ≡ e.status)
evaluated-fields e (raised message) = (refl, refl)
evaluated-fields e (ok (true, direction)) = (refl, refl)
evaluated-fields e (ok (false, direction)) = (refl, refl)

candidate_of-IsSound :
    (sources : Sources) (conflict : Bool) (e : Eligibility)
    → (candidate_of sources conflict e).status ≡ signal
    → IsSound conflict (candidate_of sources conflict e)
unfolding candidate_of
candidate_of-IsSound sources conflict e h = elim (Bool-cases (sources.exact_report e).0) [
  | inr stale ↦ cc (rw stale at h)
  | inl exact ↦ elim (Bool-cases (str_eq e.status "ELIGIBLE")) [
    | inr ineligible ↦ cc (rw (exact, ineligible) at h)
    | inl eligible ↦ elim (Bool-cases conflict) [
      | inl two ↦ cc (rw (exact, eligible, two) at h)
      | inr one ↦ elim (Bool-cases (sources.has_lineage e)) [
        | inr missing ↦ cc (rw (exact, eligible, one, missing) at h)
        | inl there ↦
            let (checked, status) = evaluated-fields e (sources.evaluate e) in
            let is_eligible = status ∙ (eq_iff e.status "ELIGIBLE").0 eligible in
            rw (exact, eligible, one, there) (checked, is_eligible, refl)
      ]
    ]
  ]
]

length-insert_text : (a : String) (xs : List String) → 1 ≤ length (insert_text a xs)
length-insert_text a [] = omega arith
length-insert_text a (b ∷ xs) = elim (Bool-cases (codes_le (codes a) (codes b))) [
  | inl before ↦ rw (before, insert_text) (omega arith)
  | inr after ↦ rw (after, insert_text) (omega arith)
]

length-sort_texts : (xs : List String) → 1 ≤ length xs → 1 ≤ length (sort_texts xs)
unfolding sort_texts
length-sort_texts [] h = absurd (omega (arith, h))
length-sort_texts (a ∷ xs) h = length-insert_text a (sort_texts xs)

length-unique : (a : String) (xs : List String) → 1 ≤ length (unique (a ∷ xs))
unfolding unique
length-unique a [] = omega arith
length-unique a (b ∷ xs) = elim (Bool-cases (text_in a (b ∷ xs))) [
  | inl again ↦ rw again (length-unique b xs)
  | inr new ↦ rw new (omega arith)
]

-- What is appended is a reason.
length-reasons :
    (blockers : List String) (code : String)
    → 1 ≤ length (sort_texts (unique (blockers ++ code ∷ [])))
length-reasons [] code = length-sort_texts _ (length-unique code [])
length-reasons (b ∷ blockers) code = length-sort_texts _ (length-unique b (blockers ++ code ∷ []))

abbrev Signals : Bool → Candidate → Type 0
Signals conflict c = (c.status ≡ signal) × IsSound conflict c

keep_signal-All :
    (conflict : Bool) (status : CandidateStatus) (c : Candidate) (later : List Candidate)
    → c.status ≡ status
    → (c.status ≡ signal → IsSound conflict c)
    → All (Signals conflict) later
    → All (Signals conflict) (keep_signal status c later)
unfolding keep_signal
keep_signal-All conflict signal c later e sound h = ((e, sound e), h)
keep_signal-All conflict blocked c later e sound h = h
keep_signal-All conflict no_signal c later e sound h = h

signals_of-All :
    (sources : Sources) (conflict : Bool) (rows : List Eligibility)
    → All (Signals conflict) (signals_of (map (candidate_of sources conflict) rows))
unfolding signals_of
signals_of-All sources conflict [] = tt
signals_of-All sources conflict (e ∷ rows) =
    let c = candidate_of sources conflict e in
    keep_signal-All conflict c.status c (signals_of (map (candidate_of sources conflict) rows)) refl
      (candidate_of-IsSound sources conflict e) (signals_of-All sources conflict rows)

one_signal-selected :
    (direction : Option String) (c : Candidate) (candidates : List Candidate)
    (blockers : List String) (s : Candidate)
    → (one_signal direction c candidates blockers).selected ≡ some s
    → (c ≡ s)
      × (direction ≡ some (one_signal direction c candidates blockers).decision)
      × ((one_signal direction c candidates blockers).candidates ≡ candidates)
unfolding one_signal
one_signal-selected none c candidates blockers s e = cc
one_signal-selected (some direction) c candidates blockers s e =
    elim (Bool-cases (text_in direction ("LONG" ∷ "SHORT" ∷ "NO_TRADE" ∷ []))) [
      | inr unsupported ↦ cc (rw (unsupported, one_signal) at e)
      | inl supported ↦
          let same : some c ≡ some s = rw (supported, one_signal) at e in
          rw (supported, one_signal) (cc same, refl, refl)
    ]

one_signal-none :
    (direction : Option String) (c : Candidate) (candidates : List Candidate)
    (blockers : List String)
    → (one_signal direction c candidates blockers).selected ≡ none
    → ((one_signal direction c candidates blockers).decision ≡ "NO_TRADE")
      × (1 ≤ length (one_signal direction c candidates blockers).reason_codes)
unfolding one_signal
one_signal-none none c candidates blockers e =
    (refl, length-reasons blockers "UNSUPPORTED_DIRECTION")
one_signal-none (some direction) c candidates blockers e =
    elim (Bool-cases (text_in direction ("LONG" ∷ "SHORT" ∷ "NO_TRADE" ∷ []))) [
      | inr unsupported ↦
          rw (unsupported, one_signal) (refl, length-reasons blockers "UNSUPPORTED_DIRECTION")
      | inl supported ↦ cc (rw (supported, one_signal) at e)
    ]

conclude_on-selected :
    (conflict : Bool) (candidates signals : List Candidate) (blockers : List String) (s : Candidate)
    → All (Signals conflict) signals
    → (conclude_on candidates signals blockers).selected ≡ some s
    → (signals ≡ s ∷ [])
      × (s.direction ≡ some (conclude_on candidates signals blockers).decision)
      × IsSound conflict s
unfolding conclude_on
conclude_on-selected conflict candidates [] blockers s h e = cc
conclude_on-selected conflict candidates (c ∷ []) blockers s h e =
    let (same, decided, _) = one_signal-selected c.direction c candidates blockers s e in
    let own : (c ∷ [] ≡ s ∷ []) = ap (λ x. x ∷ []) same in
    (
      own,
      ap (λ (x : Candidate). x.direction) (sym same) ∙ decided,
      subst (IsSound conflict) same h.0.1,
    )
conclude_on-selected conflict candidates (c ∷ c' ∷ rest) blockers s h e = cc

conclude_on-none :
    (candidates signals : List Candidate) (blockers : List String)
    → (conclude_on candidates signals blockers).selected ≡ none
    → ((conclude_on candidates signals blockers).decision ≡ "NO_TRADE")
      × (1 ≤ length (conclude_on candidates signals blockers).reason_codes)
unfolding conclude_on
conclude_on-none candidates [] [] e = (refl, omega arith)
conclude_on-none candidates [] (b ∷ blockers) e =
    (refl, length-sort_texts _ (length-unique b blockers))
conclude_on-none candidates (c ∷ []) blockers e =
    one_signal-none c.direction c candidates blockers e
conclude_on-none candidates (c ∷ c' ∷ rest) blockers e =
    (refl, length-reasons blockers "AMBIGUOUS_MULTIPLE_SIGNALS")

module _ (sources : Sources) (rows : List Eligibility) where
  -- A decision that selects a candidate has exactly one candidate that signals: that one, in whose
  -- contract's direction it decides, out of an exact snapshot that is eligible, in a cohort whose eligible
  -- snapshots have one data set.
  pub conclude-selected :
      (s : Candidate)
      → (conclude sources rows).selected ≡ some s
      → (signals_of (map (candidate_of sources (has_dataset_conflict rows)) rows) ≡ s ∷ [])
        × (s.direction ≡ some (conclude sources rows).decision)
        × ((s.eligibility_exact ≡ true)
            × (s.eligibility_status ≡ "ELIGIBLE")
            × (has_dataset_conflict rows ≡ false))
  unfolding conclude
  conclude-selected s e =
      let conflict = has_dataset_conflict rows in
      let candidates = map (candidate_of sources conflict) rows in
      conclude_on-selected conflict candidates (signals_of candidates) _ s
        (signals_of-All sources conflict rows) e

  -- A decision that selects none is not to trade, and it states at least one reason.
  pub conclude-none :
      (conclude sources rows).selected ≡ none
      → ((conclude sources rows).decision ≡ "NO_TRADE")
        × (1 ≤ length (conclude sources rows).reason_codes)
  unfolding conclude
  conclude-none e =
      let candidates = map (candidate_of sources (has_dataset_conflict rows)) rows in
      conclude_on-none candidates (signals_of candidates) _ e
