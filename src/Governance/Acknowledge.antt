-- ===== src/Governance/Acknowledge.antt =====
-- `acknowledge` of services/research/app/governance_incidents.py: the owner's receipt for an incident.
use arkana.Base.{
  Bool, false, not, ◌||◌, none, some, [], ◌∷◌, Result, ok, raised, String, Dict, string_key, str_eq,
  any_of, append_text, if◌then◌else◌,
}
use arkana.Governance.{Incident, Acknowledgement, Store, find, ack_for, Content, text, Outside}
use arkana.Governance.Policy.{protocol_version}
use arkana.Governance.Calls.{Call, winner}

-- The unique columns, the primary key among them.
abbrev pub clashes_acknowledgement : Acknowledgement → Acknowledgement → Bool
clashes_acknowledgement a b =
    str_eq a.id b.id || str_eq a.incident_id b.incident_id || str_eq a.fingerprint b.fingerprint

unfoldable pub acknowledgement_phrase : String → String
unfolding append_text
acknowledgement_phrase id = append_text "ACKNOWLEDGED — BLOCK REMAINS — " id

unfoldable pub acknowledgement_content : String → Incident → String → Dict String Content
acknowledgement_content version i phrase =
    ("protocol_version", text version)
    ∷ ("incident_id", text i.id)
    ∷ ("incident_fingerprint", text i.fingerprint)
    ∷ ("phrase", text phrase)
    ∷ []

unfoldable pub commit_acknowledgement :
    Call → Acknowledgement → Store → Result (Acknowledgement × Bool) × Store
unfolding find
commit_acknowledgement c item s =
    let t = c.others s in
    if any_of (λ a. clashes_acknowledgement a item) t.acknowledgements
    then (
      winner (ack_for item.incident_id t) (λ (a : Acknowledgement). a.fingerprint) item.fingerprint
          "incident acknowledgement conflicts with a concurrent write",
      t,
    )
    else (ok (item, false), record t { acknowledgements = item ∷ t.acknowledgements })

unfoldable pub acknowledge :
    Outside → Call → Incident → String → Store → Result (Acknowledgement × Bool) × Store
acknowledge o c i phrase s =
    let fingerprint = o.hash (acknowledgement_content protocol_version i phrase) in
    let item : Acknowledgement = record {
      id = c.new_id;
      incident_id = i.id;
      incident_fingerprint = i.fingerprint;
      fingerprint = fingerprint;
      protocol_version = protocol_version;
      acknowledgement_phrase = phrase;
      phrase_fingerprint = o.digest phrase;
      acknowledged_at = c.now;
    } in
    if not (str_eq phrase (acknowledgement_phrase i.id))
    then (raised "acknowledgement must equal the incident's phrase", s)
    else (elim (ack_for i.id s) [
      | some existing ↦ (
        winner (some existing) (λ (a : Acknowledgement). a.fingerprint) fingerprint
            "incident acknowledgement conflicts",
        s,
      )
      | none ↦ commit_acknowledgement c item s
    ])
