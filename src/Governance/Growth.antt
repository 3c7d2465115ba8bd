-- ===== src/Governance/Growth.antt =====
-- The tables of the incident protocol only grow, whatever the operations raise and however other
-- sessions come between.
pub mod Commits
pub mod Blocks
pub mod Operations
use arkana.Base.{
  ℕ, ◌≡◌, refl, sym, ap, ◌∙◌, Bool, true, false, not, ◌&&◌, none, some, List, [], ◌∷◌, ok, String,
  str_eq, eq_iff, any_of, Bool-cases, inl, inr, arith, Option-cases, Result-cases, >>=-eq-ok,
  ok-injective, subst, ◌⊎◌, ltb, get, string_key, leb, length, codes, all_of,
}
use arkana.Governance.Policy.{subject_of, policy, utc}
use arkana.Governance.{
  Rule, Status, waiting, acknowledged, entries_blocked, other, Publication, Incident,
  Acknowledgement, Resolution, Store, Journal, journal_of, find, publication_of, incident_of,
  ack_for, resolution_for, Outside,
}
use arkana.Governance.Calls.{Call, found, guarded-eq-ok, found-eq-ok}
use arkana.Governance.Incidents.{
  IncidentRequest, Prepared, put_publication, blocked_by, install_block, block_at, block_entries,
  protect_at, protect, is_code, entry_required, text_of, new_incident, identity_of, evidence_of,
  clashes_incident, commit_incident, create_incident, settle_incident, materialize, check_incident,
}
use arkana.Governance.Acknowledge.{
  clashes_acknowledgement, acknowledgement_phrase, commit_acknowledgement, acknowledge,
}
use arkana.Governance.Resolve.{
  RecoveryRequest, Recovery, check_ids, check_all_evidence, clashes_resolution, new_resolution,
  commit_resolution, settle_resolution, check_resolution, resolve,
}

abbrev pub IsBlocked : String → Store → Type 0
IsBlocked id s = (p : Publication) × (publication_of id s ≡ some p) × (p.status ≡ entries_blocked)

-- A resolution of an incident names the incident's acknowledgement and removes no block.
abbrev pub IsChained : String → Resolution → Store → Type 0
IsChained id r s =
    (a : Acknowledgement) × (ack_for id s ≡ some a)
    × (r.acknowledgement_id ≡ a.id)
    × (r.entry_block_removed ≡ false)
    × (r.live_authorized ≡ false)

-- Every row that is found is found unaltered, a blocked publication stays blocked, and a resolution
-- that is new names an acknowledgement.
pub record Grows (s t : Store) : Type 0 where
  pub journals : (id : String) (j : Journal) → journal_of id s ≡ some j → journal_of id t ≡ some j
  pub incidents :
      (key : String) (i : Incident) → incident_of key s ≡ some i → incident_of key t ≡ some i
  pub acknowledgements :
      (id : String) (a : Acknowledgement) → ack_for id s ≡ some a → ack_for id t ≡ some a
  pub resolutions :
      (id : String) (r : Resolution) → resolution_for id s ≡ some r → resolution_for id t ≡ some r
  pub blocks : (id : String) → IsBlocked id s → IsBlocked id t
  pub chained :
      (id : String) (r : Resolution)
      → resolution_for id t ≡ some r
      → (resolution_for id s ≡ some r) ⊎ IsChained id r t

pub Grows-refl : (s : Store) → Grows s s
Grows-refl s = record {
  journals = λ id j e. e;
  incidents = λ key i e. e;
  acknowledgements = λ id a e. e;
  resolutions = λ id r e. e;
  blocks = λ id b. b;
  chained = λ id r e. inl e;
}

pub Grows-IsChained :
    {s t : Store} (id : String) (r : Resolution) → Grows s t → IsChained id r s → IsChained id r t
Grows-IsChained id r g (a, e, k, b, l) = (a, g.acknowledgements id a e, k, b, l)

pub Grows-trans : {s t u : Store} → Grows s t → Grows t u → Grows s u
Grows-trans g h = record {
  journals = λ id j e. h.journals id j (g.journals id j e);
  incidents = λ key i e. h.incidents key i (g.incidents key i e);
  acknowledgements = λ id a e. h.acknowledgements id a (g.acknowledgements id a e);
  resolutions = λ id r e. h.resolutions id r (g.resolutions id r e);
  blocks = λ id b. h.blocks id (g.blocks id b);
  chained = λ id r e. elim (h.chained id r e) [
    | inr new ↦ inr new
    | inl old ↦ elim (g.chained id r old) [
      | inl older ↦ inl older
      | inr chain ↦ inr (Grows-IsChained id r h chain)
    ]
  ];
}
