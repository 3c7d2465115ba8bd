-- ===== src/Governance/Growth/Operations.antt =====
-- The operations of governance_incidents.py lose no row.
use arkana.Base.{
  ℕ, ◌≡◌, refl, ap, ◌∙◌, true, some, ok, String, str_eq, Bool-cases, inl, inr, Option-cases,
  Result-cases, >>=-eq-ok, ok-injective, ltb, get, string_key,
}
use arkana.Governance.Policy.{subject_of, policy, utc}
use arkana.Governance.{Rule, Incident, Store, incident_of, ack_for, resolution_for, Outside}
use arkana.Governance.Calls.{Call, found, guarded-eq-ok, found-eq-ok}
use arkana.Governance.Incidents.{
  IncidentRequest, Prepared, protect, new_incident, identity_of, evidence_of, create_incident,
  settle_incident, materialize, check_incident,
}
use arkana.Governance.Acknowledge.{acknowledgement_phrase, acknowledge}
use arkana.Governance.Resolve.{
  RecoveryRequest, Recovery, check_ids, check_all_evidence, new_resolution, settle_resolution,
  check_resolution, resolve,
}
use arkana.Governance.Growth.{Grows, Grows-refl, Grows-trans}
use arkana.Governance.Growth.Commits.{
  commit_incident-Grows, commit_acknowledgement-Grows, commit_resolution-Grows,
}
use arkana.Governance.Growth.Blocks.{protect-Grows}

-- Who resolves an incident has found its acknowledgement, and a reason that can be recovered from.
pub check_resolution-eq-ok :
    (o : Outside) (now : ℕ) (i : Incident) (p : RecoveryRequest) (s : Store) (x : Recovery)
    → check_resolution o now i p s ≡ ok x
    → (rule : Rule) × (get i.reason_code policy ≡ some rule)
      × (rule.recoverable ≡ true)
      × (ack_for i.id s ≡ some x.acknowledgement)
unfolding check_resolution
check_resolution-eq-ok o now i p s x e =
    let (_, e₁) = guarded-eq-ok _ _ e in
    let (rule, listed, e₂) = >>=-eq-ok (found (get i.reason_code policy) _) _ e₁ in
    let (recoverable, e₃) = guarded-eq-ok rule.recoverable _ e₂ in
    let (a, there, e₄) = >>=-eq-ok (found (ack_for i.id s) _) _ e₃ in
    let (ids, _, e₅) = >>=-eq-ok (check_ids p.evidence_journal_item_ids) _ e₄ in
    let (resolved_at, _, e₆) = >>=-eq-ok (utc o p.resolved_at now) _ e₅ in
    let (_, e₇) = guarded-eq-ok (ltb i.detected_at resolved_at) _ e₆ in
    let (journals, _, e₈) = >>=-eq-ok (check_all_evidence o now rule i resolved_at ids s) _ e₇ in
    let same : record { acknowledgement = a; journals = journals; resolved_at = resolved_at } ≡ x =
      ok-injective e₈ in
    (
      rule,
      found-eq-ok (get i.reason_code policy) _ listed,
      recoverable,
      found-eq-ok (ack_for i.id s) _ there ∙ ap (λ (y : Recovery). some y.acknowledgement) same,
    )

module _ (o : Outside) (c : Call) (grown : (u : Store) → Grows u (c.others u)) (s : Store) where
  pub create_incident-Grows :
      (x : Prepared) (key fingerprint : String)
      → Grows s (create_incident o c x key fingerprint s).1
  unfolding create_incident
  create_incident-Grows x key fingerprint = elim (Result-cases (protect o x s).0) [
    | inr (message, e) ↦ rw (e, create_incident) (protect-Grows o s x)
    | inl (state, e) ↦
        rw (e, create_incident)
          (Grows-trans (protect-Grows o s x) (
            commit_incident-Grows c grown (protect o x s).1
              (new_incident o c x key fingerprint state)))
  ]

  settle_incident-Grows : (x : Prepared) → Grows s (settle_incident o c x s).1
  unfolding settle_incident
  settle_incident-Grows x =
      let identity = identity_of o x.reason_code x.journal (subject_of x.journal) x.detected in
      let key = o.hash identity in
      let fingerprint = o.hash (evidence_of o identity x.journal x.facts) in
      elim (Option-cases (incident_of key s)) [
        | inr (existing, e) ↦ rw (e, settle_incident) (Grows-refl s)
        | inl new ↦ elim (Bool-cases (o.verified s x.journal)) [
          | inl verified ↦
              rw (new, verified, settle_incident) (create_incident-Grows x key fingerprint)
          | inr refused ↦ rw (new, refused, settle_incident) (Grows-refl s)
        ]
      ]

  pub materialize-Grows : (p : IncidentRequest) → Grows s (materialize o c p s).1
  unfolding materialize
  materialize-Grows p = elim (Result-cases (check_incident o c.now p s)) [
    | inl (x, e) ↦ rw (e, materialize) (settle_incident-Grows x)
    | inr (message, e) ↦ rw (e, materialize) (Grows-refl s)
  ]

  pub acknowledge-Grows : (i : Incident) (phrase : String) → Grows s (acknowledge o c i phrase s).1
  unfolding acknowledge
  acknowledge-Grows i phrase = elim (Bool-cases (str_eq phrase (acknowledgement_phrase i.id))) [
    | inr other_phrase ↦ rw other_phrase (Grows-refl s)
    | inl phrased ↦ elim (Option-cases (ack_for i.id s)) [
      | inr (existing, e) ↦ rw (phrased, e) (Grows-refl s)
      | inl new ↦ rw (phrased, new) (commit_acknowledgement-Grows c grown s _)
    ]
  ]

  pub resolve-Grows : (i : Incident) (p : RecoveryRequest) → Grows s (resolve o c i p s).1
  unfolding resolve settle_resolution
  resolve-Grows i p = elim (Result-cases (check_resolution o c.now i p s)) [
    | inr (message, e) ↦ rw (e, resolve) (Grows-refl s)
    | inl (x, e) ↦ elim (Option-cases (resolution_for i.id s)) [
      | inr (existing, f) ↦ rw (e, f, resolve, settle_resolution) (Grows-refl s)
      | inl new ↦
          rw (e, new, resolve, settle_resolution)
            (commit_resolution-Grows c grown s (new_resolution o c i x)
              (x.acknowledgement, (check_resolution-eq-ok o c.now i p s x e).3, refl, refl, refl))
    ]
  ]
