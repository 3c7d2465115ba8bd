-- ===== src/Governance/Runs.antt =====
-- Runs of the incident protocol: the calls of one session, each with what other sessions do between
-- its reads and its commit, which are runs themselves.
use arkana.Base.{
  ◌≡◌, ◌⊎◌, subst, ◌≤◌, ℕ, none, some, String, inl, inr, arith, Option-cases, string_key,
}
use arkana.Governance.{
  Incident, Acknowledgement, Resolution, Store, incident_of, ack_for, resolution_for, Outside,
}
use arkana.Governance.Calls.{Call}
use arkana.Governance.Incidents.{IncidentRequest, materialize}
use arkana.Governance.Acknowledge.{acknowledge}
use arkana.Governance.Resolve.{
  RecoveryRequest, resolve, IncidentState, incident_open, owner_acknowledged,
  resolved_with_evidence, state_of,
}
use arkana.Governance.Growth.{IsBlocked, IsChained, Grows, Grows-refl, Grows-trans}
use arkana.Governance.Growth.Operations.{materialize-Grows, acknowledge-Grows, resolve-Grows}

pub data Run (o : Outside) : Store → Store → Type 0 where
  here : (s : Store) → Run o s s
  materialized :
      {s t u : Store} (c : Call) (p : IncidentRequest)
      → Run o s t
      → ((v : Store) → Run o v (c.others v))
      → (materialize o c p t).1 ≡ u
      → Run o s u
  acknowledged :
      {s t u : Store} (c : Call) (i : Incident) (phrase : String)
      → Run o s t
      → ((v : Store) → Run o v (c.others v))
      → (acknowledge o c i phrase t).1 ≡ u
      → Run o s u
  resolved :
      {s t u : Store} (c : Call) (i : Incident) (p : RecoveryRequest)
      → Run o s t
      → ((v : Store) → Run o v (c.others v))
      → (resolve o c i p t).1 ≡ u
      → Run o s u

module _ {o : Outside} where
  pub Run-Grows : {s t : Store} → Run o s t → Grows s t
  Run-Grows (here s) = Grows-refl s
  Run-Grows (materialized {t} c p run others e) =
      Grows-trans (Run-Grows run)
        (subst (Grows t) e (materialize-Grows o c (λ v. Run-Grows (others v)) t p))
  Run-Grows (acknowledged {t} c i phrase run others e) =
      Grows-trans (Run-Grows run)
        (subst (Grows t) e (acknowledge-Grows o c (λ v. Run-Grows (others v)) t i phrase))
  Run-Grows (resolved {t} c i p run others e) =
      Grows-trans (Run-Grows run)
        (subst (Grows t) e (resolve-Grows o c (λ v. Run-Grows (others v)) t i p))

-- Open, acknowledged, resolved, in this order.
abbrev pub rank : IncidentState → ℕ
rank incident_open = 0
rank owner_acknowledged = 1
rank resolved_with_evidence = 2

state_of-resolved :
    (i : Incident) (s : Store) (r : Resolution)
    → resolution_for i.id s ≡ some r
    → state_of i s ≡ resolved_with_evidence
unfolding state_of
state_of-resolved i s r e = rw (e, state_of)

rank-state_of :
    (i : Incident) (s : Store) (a : Acknowledgement)
    → ack_for i.id s ≡ some a
    → 1 ≤ rank (state_of i s)
unfolding state_of
rank-state_of i s a e = elim (Option-cases (resolution_for i.id s)) [
  | inl unresolved ↦
      let h : state_of i s ≡ owner_acknowledged = rw (unresolved, e, state_of) in rw h (omega arith)
  | inr (r, f) ↦ rw (state_of-resolved i s r f) (omega arith)
]

state_of-open :
    (i : Incident) (s : Store)
    → resolution_for i.id s ≡ none
    → ack_for i.id s ≡ none
    → state_of i s ≡ incident_open
unfolding state_of
state_of-open i s e f = rw (e, f, state_of)

state_of-owner_acknowledged :
    (i : Incident) (s : Store) (a : Acknowledgement)
    → resolution_for i.id s ≡ none
    → ack_for i.id s ≡ some a
    → state_of i s ≡ owner_acknowledged
unfolding state_of
state_of-owner_acknowledged i s a e f = rw (e, f, state_of)

module _ {o : Outside} {s t : Store} where
  -- An incident that is found under its key is found unaltered after any run: any calls, whatever they
  -- raise, with any such run of other sessions between the reads and the commit of each.
  pub Run-incident_of :
      Run o s t
      → (key : String) (i : Incident) → incident_of key s ≡ some i
      → incident_of key t ≡ some i
  Run-incident_of run = (Run-Grows run).incidents

  -- A publication whose entries are blocked has them blocked after any run: neither a receipt nor a
  -- resolution removes a block.
  pub Run-IsBlocked : Run o s t → (id : String) → IsBlocked id s → IsBlocked id t
  Run-IsBlocked run = (Run-Grows run).blocks

  -- A resolution that is found after a run was there before it, or it names the acknowledgement of its
  -- incident and records no removed block and no live authority.
  pub Run-IsChained :
      Run o s t
      → (id : String) (r : Resolution) → resolution_for id t ≡ some r
      → (resolution_for id s ≡ some r) ⊎ IsChained id r t
  Run-IsChained run = (Run-Grows run).chained

  -- An incident's state never goes back: not from resolved, and not from acknowledged to open, over any run.
  pub Run-rank : Run o s t → (i : Incident) → rank (state_of i s) ≤ rank (state_of i t)
  Run-rank run i = elim (Option-cases (resolution_for i.id s)) [
    | inr (r, e) ↦
        let before = state_of-resolved i s r e in
        let after = state_of-resolved i t r ((Run-Grows run).resolutions i.id r e) in
        rw (before, after) (omega arith)
    | inl unresolved ↦ elim (Option-cases (ack_for i.id s)) [
      | inl unseen ↦ rw (state_of-open i s unresolved unseen) (omega arith)
      | inr (a, e) ↦
          let kept = (Run-Grows run).acknowledgements i.id a e in
          rw (state_of-owner_acknowledged i s a unresolved e) (rank-state_of i t a kept)
    ]
  ]
