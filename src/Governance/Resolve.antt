-- ===== src/Governance/Resolve.antt =====
-- `resolve` of services/research/app/governance_incidents.py: recovery with evidence, and the state that
-- an incident's chain gives it.
use arkana.Base.{
  ℕ, Bool, false, not, ◌&&◌, ◌||◌, Option, none, some, List, [], ◌∷◌, map, Result, ok, raised,
  ◌>>=◌, String, ltb, leb, Dict, get, string_key, str_eq, text_in, any_of, length, is_given,
  same_text?, sort_texts, are_distinct, if◌then◌else◌,
}
use arkana.Governance.{
  Rule, Journal, Incident, Acknowledgement, Resolution, Store, find, journal_of, telemetry_of,
  ack_for, resolution_for, Content, text, texts, Outside,
}
use arkana.Governance.Policy.{policy, protocol_version, same_set, utc}
use arkana.Governance.Calls.{Call, guarded, found, winner}

-- The unique columns, the primary key among them.
abbrev pub clashes_resolution : Resolution → Resolution → Bool
clashes_resolution a b =
    str_eq a.id b.id || str_eq a.incident_id b.incident_id || str_eq a.fingerprint b.fingerprint

pub record RecoveryRequest : Type 0 where
  pub keys : List String
  pub evidence_journal_item_ids : Option (List (Option String))
  pub resolved_at : Option String

-- The ids of a non-empty list of non-empty texts.
unfoldable pub texts_of : List (Option String) → Option (List String)
texts_of [] = some []
texts_of (a ∷ rest) =
    let others = texts_of rest in
    if is_given a
    then (elim a [ none ↦ none | some t ↦ (elim others [ none ↦ none | some ts ↦ some (t ∷ ts) ]) ])
    else none

unfoldable pub check_ids : Option (List (Option String)) → Result (List String)
unfolding texts_of
check_ids none = raised "evidence_journal_item_ids must be a non-empty list"
check_ids (some []) = raised "evidence_journal_item_ids must be a non-empty list"
check_ids (some (a ∷ rest)) = do
  ids ← found (texts_of (a ∷ rest)) "evidence_journal_item_ids must be a non-empty list"
  guarded (are_distinct ids) "recovery evidence journal IDs must be unique" (ok (sort_texts ids))

-- `a and b != a`, for an incident's own `a`
abbrev agrees : Option String → Option String → Bool
agrees own theirs = not (is_given own) || same_text? own theirs

-- Of the sources only a telemetry event is read, and only for a reason with event codes.
unfoldable pub check_source : Rule → Incident → Journal → Store → Result (Unit {0})
unfolding find
check_source rule i j s =
    if str_eq j.source_type "GENERIC_TELEMETRY" && leb 1 (length rule.event_codes)
    then (elim (telemetry_of j.source_id s) [
      | none ↦ raised "recovery telemetry source is missing"
      | some e ↦
          if str_eq i.reason_code "STALE_OR_MISSING_HEARTBEAT"
          then guarded (str_eq e.event_type "HEARTBEAT" && text_in e.event_code rule.event_codes)
              "recovery requires a fresh healthy heartbeat" (ok tt)
          else guarded (text_in e.event_code rule.event_codes)
              "recovery telemetry code is not incident-specific" (ok tt)
    ])
    else ok tt

unfoldable pub check_evidence : Outside → ℕ → Rule → Incident → ℕ → String → Store → Result Journal
unfolding check_source utc find
check_evidence o now rule i resolved_at id s = do
  j ← found (journal_of id s) "recovery governance journal item not found"
  guarded (text_in j.source_type rule.recovery)
      "incident-specific recovery source type is not accepted"
      (guarded (o.verified s j) "recovery source integrity failed" (do
        evidence_time ← utc o j.observed_time now
        guarded (ltb i.detected_at evidence_time && leb evidence_time resolved_at)
            "recovery evidence must be observed after the incident and no later than resolution"
            (guarded (agrees i.strategy_version_id j.strategy_version_id)
              "recovery strategy lineage conflicts with the incident"
              (guarded (agrees i.publication_id j.publication_id)
                "recovery publication lineage conflicts with the incident"
                (do u ← check_source rule i j s; ok j)))))

unfoldable pub check_all_evidence :
    Outside → ℕ → Rule → Incident → ℕ → List String → Store → Result (List Journal)
unfolding check_evidence
check_all_evidence o now rule i resolved_at [] s = ok []
check_all_evidence o now rule i resolved_at (id ∷ ids) s = do
  j ← check_evidence o now rule i resolved_at id s
  journals ← check_all_evidence o now rule i resolved_at ids s
  ok (j ∷ journals)

pub record Recovery : Type 0 where
  pub acknowledgement : Acknowledgement
  pub journals : List Journal
  pub resolved_at : ℕ

unfoldable pub check_resolution : Outside → ℕ → Incident → RecoveryRequest → Store → Result Recovery
check_resolution o now i p s =
    guarded (same_set p.keys ("evidence_journal_item_ids" ∷ "resolved_at" ∷ []))
      "resolution request requires exactly evidence_journal_item_ids and resolved_at"
      (do
        rule ← found (get i.reason_code policy) "KeyError"
        guarded rule.recoverable
            "current lifecycle incident is non-recoverable; a retired strategy cannot be unretired"
            (do
              a ←
                  found (ack_for i.id s)
                    "exact Owner acknowledgement is required before recovery review"
              ids ← check_ids p.evidence_journal_item_ids
              resolved_at ← utc o p.resolved_at now
              guarded (ltb i.detected_at resolved_at)
                  "recovery evidence must be current and resolution must follow the incident"
                  (do
                    journals ← check_all_evidence o now rule i resolved_at ids s
                    ok (record {
                      acknowledgement = a;
                      journals = journals;
                      resolved_at = resolved_at;
                    }))))

abbrev pub fingerprints_of : List Journal → List String
fingerprints_of = map (λ (j : Journal). j.fingerprint)

unfoldable pub resolution_content :
    Outside → Incident → Content → List String → ℕ → Dict String Content
resolution_content o i acknowledgement_fingerprint evidence_fingerprints resolved_at =
    ("protocol_version", text protocol_version)
    ∷ ("incident_id", text i.id)
    ∷ ("incident_fingerprint", text i.fingerprint)
    ∷ ("acknowledgement_fingerprint", acknowledgement_fingerprint)
    ∷ ("evidence_fingerprints", texts evidence_fingerprints)
    ∷ ("resolved_at", text (o.iso resolved_at))
    ∷ []

abbrev pub resolution_status : String
resolution_status = "INCIDENT_RESOLVED_WITH_EVIDENCE"

unfoldable pub commit_resolution : Call → Resolution → Store → Result (Resolution × Bool) × Store
unfolding find
commit_resolution c item s =
    let t = c.others s in
    if any_of (λ r. clashes_resolution r item) t.resolutions
    then (
      winner (resolution_for item.incident_id t) (λ (r : Resolution). r.fingerprint)
          item.fingerprint "incident recovery conflicts with a concurrent immutable write",
      t,
    )
    else (ok (item, false), record t { resolutions = item ∷ t.resolutions })

abbrev pub new_resolution : Outside → Call → Incident → Recovery → Resolution
new_resolution o c i x =
    let fingerprints = fingerprints_of x.journals in
    record {
      id = c.new_id;
      incident_id = i.id;
      incident_fingerprint = i.fingerprint;
      acknowledgement_id = x.acknowledgement.id;
      fingerprint =
          o.hash (
            resolution_content o i (text x.acknowledgement.fingerprint) fingerprints x.resolved_at);
      protocol_version = protocol_version;
      evidence_journal_item_ids = map (λ (j : Journal). j.id) x.journals;
      evidence_fingerprints = fingerprints;
      status = resolution_status;
      entry_block_removed = false;
      live_authorized = false;
      resolved_at = x.resolved_at;
    }

unfoldable pub settle_resolution :
    Outside → Call → Incident → Recovery → Store → Result (Resolution × Bool) × Store
settle_resolution o c i x s =
    let item = new_resolution o c i x in
    elim (resolution_for i.id s) [
      | some existing ↦ (
        winner (some existing) (λ (r : Resolution). r.fingerprint) item.fingerprint
            "incident recovery conflicts with different immutable evidence",
        s,
      )
      | none ↦ commit_resolution c item s
    ]

unfoldable pub resolve :
    Outside → Call → Incident → RecoveryRequest → Store → Result (Resolution × Bool) × Store
resolve o c i p s = elim (check_resolution o c.now i p s) [
  | raised message ↦ (raised message, s)
  | ok x ↦ settle_resolution o c i x s
]

-- The `state` of `serialize`.
pub data IncidentState : Type 0 where
  incident_open owner_acknowledged resolved_with_evidence : IncidentState

unfoldable pub state_of : Incident → Store → IncidentState
state_of i s = elim (resolution_for i.id s) [
  | some r ↦ resolved_with_evidence
  | none ↦ (elim (ack_for i.id s) [ some a ↦ owner_acknowledged | none ↦ incident_open ])
]
