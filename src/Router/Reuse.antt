-- ===== src/Router/Reuse.antt =====
-- A decision that was made is found again.
use arkana.Base.{
  ℕ, ◌≡◌, refl, sym, ap, ◌∙◌, subst, true, false, ◌||◌, some, List, ◌∷◌, ok, String, str_eq, eq_iff,
  any_of, Bool-cases, Option-cases, Result-cases, inl, inr, ok-injective,
}
use arkana.Router.{
  Eligibility, Sources, Decision, conclude, check_cohort, decision_of, commit_decision,
  settle_decision, materialize_decision,
}

commit_decision-returns :
    (others : List Decision → List Decision) (item d : Decision) (table : List Decision)
    → (commit_decision others item table).0 ≡ ok (d, false)
    → (item ≡ d) × ((commit_decision others item table).1 ≡ d ∷ others table)
unfolding commit_decision
commit_decision-returns others item d table e =
    let clashes = λ (x : Decision). str_eq x.id item.id || str_eq x.fingerprint item.fingerprint in
    elim (Bool-cases (any_of clashes (others table))) [
      | inl clash ↦ elim (Option-cases (decision_of item.fingerprint (others table))) [
        | inl missing ↦ cc (rw (clash, missing, commit_decision) at e)
        | inr (existing, there) ↦ cc (rw (clash, there, commit_decision) at e)
      ]
      | inr clear ↦
          let h : ok (item, false) ≡ ok (d, false) = rw (clear, commit_decision) at e in
          let same : item ≡ d = ap (λ q. q.0) (ok-injective h) in
          (same, rw (clear, commit_decision) (ap (λ x. x ∷ others table) same))
    ]

decision_of-first :
    (d : Decision) (table : List Decision) → decision_of d.fingerprint (d ∷ table) ≡ some d
unfolding decision_of
decision_of-first d table = rw ((eq_iff d.fingerprint d.fingerprint).1 refl) refl

settle_decision-returns :
    (sources : Sources) (others : List Decision → List Decision) (new_id : String) (at : ℕ)
    (rows : List Eligibility) (policy : String) (d : Decision) (table : List Decision)
    → (settle_decision sources others new_id at (rows, policy) table).0 ≡ ok (d, false)
    → (d.conclusion ≡ conclude sources rows)
      × (d.fingerprint ≡ sources.fingerprint policy at (conclude sources rows).candidates)
      × ((settle_decision sources others new_id at (rows, policy) table).1 ≡ d ∷ others table)
unfolding settle_decision
settle_decision-returns sources others new_id at rows policy d table e =
    let fingerprint = sources.fingerprint policy at (conclude sources rows).candidates in
    elim (Option-cases (decision_of fingerprint table)) [
      | inr (existing, there) ↦ cc (rw (there, settle_decision) at e)
      | inl new ↦
          let (same, stored) =
            commit_decision-returns others _ d table (rw (new, settle_decision) at e) in
          (
            ap (λ (x : Decision). x.conclusion) (sym same),
            ap (λ (x : Decision). x.fingerprint) (sym same),
            rw (new, settle_decision) stored,
          )
    ]

settle_decision-reuses :
    (sources : Sources) (others : List Decision → List Decision) (new_id : String) (at : ℕ)
    (rows : List Eligibility) (policy : String) (d : Decision) (table : List Decision)
    → d.fingerprint ≡ sources.fingerprint policy at (conclude sources rows).candidates
    → settle_decision sources others new_id at (rows, policy) (d ∷ table)
      ≡ (ok (d, true), d ∷ table)
unfolding settle_decision
settle_decision-reuses sources others new_id at rows policy d table e =
    let there = ap (λ f. decision_of f (d ∷ table)) (sym e) ∙ decision_of-first d table in
    rw (there, settle_decision)

materialize_decision-eq-settle_decision :
    (sources : Sources) (others : List Decision → List Decision) (id : String) (ids : List String)
    (at : ℕ) (rows : List Eligibility) (policy : String) (table : List Decision)
    → check_cohort sources ids at ≡ ok (rows, policy)
    → materialize_decision sources others id ids at table
      ≡ settle_decision sources others id at (rows, policy) table
unfolding materialize_decision
materialize_decision-eq-settle_decision sources others id ids at rows policy table f =
    rw (f, materialize_decision)

-- A decision that is made is the conclusion on a cohort that passed the checks, and the same request on
-- the table that it leaves answers with it, as reused, and leaves that table as it is.
pub materialize_decision-again :
    (sources : Sources) (others others' : List Decision → List Decision) (id id' : String)
    (ids : List String) (at : ℕ) (d : Decision) (table : List Decision)
    → (materialize_decision sources others id ids at table).0 ≡ ok (d, false)
    → (rows : List Eligibility) × (policy : String) × (check_cohort sources ids at
        ≡ ok (rows, policy))
      × (d.conclusion ≡ conclude sources rows)
      × (materialize_decision sources others' id' ids at
            (materialize_decision sources others id ids at table).1
          ≡ (ok (d, true), (materialize_decision sources others id ids at table).1))
unfolding materialize_decision
materialize_decision-again sources others others' id id' ids at d table e =
    elim (Result-cases (check_cohort sources ids at)) [
      | inr (message, f) ↦ cc (rw (f, materialize_decision) at e)
      | inl ((rows, policy), f) ↦
          let settled =
            materialize_decision-eq-settle_decision sources others id ids at rows policy table f in
          let (concluded, print, stored) =
            settle_decision-returns sources others id at rows policy d table
              (ap (λ r. r.0) (sym settled) ∙ e) in
          let after : (materialize_decision sources others id ids at table).1 ≡ d ∷ others table =
            ap (λ r. r.1) settled ∙ stored in
          let again =
            materialize_decision-eq-settle_decision sources others' id' ids at rows policy
              (d ∷ others table) f
            ∙ settle_decision-reuses sources others' id' at rows policy d (others table) print in
          (
            rows,
            policy,
            f,
            concluded,
            subst (λ u. materialize_decision sources others' id' ids at u ≡ (ok (d, true), u))
                (sym after) again,
          )
    ]
