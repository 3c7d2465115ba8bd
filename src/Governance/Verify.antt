-- ===== src/Governance/Verify.antt =====
-- `verify` of services/research/app/governance_incidents.py: an incident is checked against its journal
-- item, its acknowledgement and its resolution.
use arkana.Base.{
  Bool, true, false, not, ◌&&◌, Option, none, some, List, [], ◌∷◌, map, String, get, string_key,
  str_eq, length, ◌==◌, all_of,
}
use arkana.Governance.{
  Severity, critical, high, medium, low, Journal, Incident, Acknowledgement, Resolution, Store,
  journal_of, ack_for, resolution_for, text, Outside,
}
use arkana.Governance.Policy.{policy, protocol_version}
use arkana.Governance.Incidents.{identity_of, evidence_of}
use arkana.Governance.Acknowledge.{acknowledgement_phrase, acknowledgement_content}
use arkana.Governance.Resolve.{resolution_content, resolution_status}

pub record Checks : Type 0 where
  pub protocol : Bool
  pub policy : Bool
  pub trigger_binding : Bool
  pub immutable_signal : Bool
  pub acknowledgement_chain : Bool
  pub resolution_chain : Bool

abbrev pub same_severity : Severity → Severity → Bool
same_severity critical critical = true
same_severity high high = true
same_severity medium medium = true
same_severity low low = true
same_severity _ _ = false

abbrev pub same_texts : List String → List String → Bool
same_texts [] [] = true
same_texts (a ∷ as_) (b ∷ bs) = str_eq a b && same_texts as_ bs
same_texts [] (b ∷ bs) = false
same_texts (a ∷ as_) [] = false

unfoldable pub policy_check : Outside → Incident → Bool
policy_check o i =
    str_eq i.policy_fingerprint o.policy_fingerprint && (elim (get i.reason_code policy) [
      | none ↦ false
      | some r ↦ same_severity i.severity r.severity
    ])

unfoldable pub signal_check : Outside → Incident → Journal → Bool
signal_check o i j =
    let identity = identity_of o i.reason_code j i.subject i.detected_at in
    str_eq i.incident_key (o.hash identity)
    && str_eq i.fingerprint (o.hash (evidence_of o identity j i.signal.facts))

unfoldable pub acknowledgement_check : Outside → Incident → Acknowledgement → Bool
acknowledgement_check o i a =
    let phrase = acknowledgement_phrase i.id in
    str_eq a.incident_fingerprint i.fingerprint
    && str_eq a.acknowledgement_phrase phrase
    && str_eq a.phrase_fingerprint (o.digest phrase)
    && str_eq a.fingerprint (o.hash (acknowledgement_content protocol_version i phrase))

abbrev pub present : List (Option Journal) → List String
present [] = []
present (none ∷ rest) = present rest
present (some j ∷ rest) = j.fingerprint ∷ present rest

abbrev pub is_some : {A : Type 0} → Option A → Bool
is_some none = false
is_some (some a) = true

unfoldable pub resolution_check :
    Outside → Incident → Resolution → Option Acknowledgement → Store → Bool
resolution_check o i r acknowledgement s =
    let evidence = map (λ id. journal_of id s) r.evidence_journal_item_ids in
    let fingerprints = present evidence in
    elim acknowledgement [
      | none ↦ false
      | some a ↦
          str_eq r.incident_fingerprint i.fingerprint
          && str_eq r.acknowledgement_id a.id
          && str_eq r.status resolution_status
          && length evidence == length r.evidence_journal_item_ids
          && all_of is_some evidence
          && same_texts r.evidence_fingerprints fingerprints
          && str_eq r.fingerprint
              (o.hash (resolution_content o i (text a.fingerprint) fingerprints r.resolved_at))
          && not r.entry_block_removed
          && not r.live_authorized
    ]

unfoldable pub verify : Outside → Incident → Store → Checks
verify o i s =
    let journal = journal_of i.trigger_journal_item_id s in
    record {
      protocol = str_eq i.protocol_version protocol_version;
      policy = policy_check o i;
      trigger_binding = elim journal [
        | none ↦ false
        | some j ↦ str_eq j.fingerprint i.trigger_journal_fingerprint
      ];
      immutable_signal = elim journal [ none ↦ false | some j ↦ signal_check o i j ];
      acknowledgement_chain = elim (ack_for i.id s) [
        | none ↦ true
        | some a ↦ acknowledgement_check o i a
      ];
      resolution_chain = elim (resolution_for i.id s) [
        | none ↦ true
        | some r ↦ resolution_check o i r (ack_for i.id s) s
      ];
    }

-- The status is PASSED.
abbrev pub passed : Checks → Bool
passed k =
    k.protocol && k.policy && k.trigger_binding && k.immutable_signal && k.acknowledgement_chain
    && k.resolution_chain
