-- ===== src/Governance/Examples.antt =====
-- An incident on a waiting publication: it is created, acknowledged and resolved. A dictionary is hashed
-- to its texts, one after the other.
use arkana.Base.{
  ℕ, ◌≡◌, ap, ◌≤◌, ◌⊎◌, inl, refl, Bool, true, false, Option, none, some, [], ◌∷◌, Result, ok,
  raised, String, get, string_key, Dict, sort_texts, append_text,
}
use arkana.Governance.{
  Journal, waiting, high, installed, Control, entries_blocked, Incident, Acknowledgement,
  Resolution, Store, find, Content, text, texts, pairs, absent, Parsed, malformed, instant, Outside,
  incident_of, ack_for, resolution_for,
}
use arkana.Governance.Policy.{
  policy, is_private, check_facts, check_signal, validated_signal, utc, subject_of,
}
use arkana.Governance.Calls.{Call}
use arkana.Governance.Incidents.{
  IncidentRequest, check_request, check_incident, identity_of, evidence_of, put_publication,
  install_block, block_at, block_entries, protect_at, protect, commit_incident, create_incident,
  settle_incident, materialize, text_of,
}
use arkana.Governance.Acknowledge.{
  acknowledge, acknowledgement_phrase, acknowledgement_content, commit_acknowledgement,
}
use arkana.Governance.Resolve.{
  RecoveryRequest, Recovery, new_resolution, resolve, check_resolution, check_ids, texts_of,
  check_all_evidence, check_evidence, check_source, settle_resolution, commit_resolution, state_of,
}
use arkana.Governance.Verify.{verify, passed}
use arkana.Governance.Growth.{IsBlocked, IsChained}
use arkana.Governance.Runs.{
  Run, here, acknowledged, resolved, rank, Run-incident_of, Run-IsBlocked, Run-IsChained, Run-rank,
}
use arkana.Governance.Block.{materialize-IsBlocked, resolve-refuses}
use arkana.Governance.Verified.{materialize-verify, materialize-again}

abbrev line : Content → String
line (text t) = t
line (texts ts) = "texts"
line (pairs ps) = "pairs"
line absent = ""

abbrev joined : Dict String Content → String
joined [] = ""
joined ((k, v) ∷ rest) = append_text (line v) (joined rest)

abbrev times : Dict String ℕ
times = ("09:00", 900) ∷ ("09:10", 910) ∷ ("09:20", 920) ∷ ("09:30", 930) ∷ []

abbrev if_known : Option ℕ → Parsed
if_known none = malformed
if_known (some n) = instant n

abbrev outside : Outside
outside = record {
  hash = joined;
  digest = λ t. t;
  policy_fingerprint = "policy";
  read_time = λ t. if_known (get t times);
  iso = λ n. "iso";
  verified = λ s j. true;
  install = λ p reason now. true;
}

abbrev call : ℕ → String → Call
call now id = record { now = now; new_id = id; others = λ s. s }

abbrev journal : String → String → Option String → Journal
journal id kind observed = record {
  id = id;
  fingerprint = id;
  source_type = kind;
  source_id = "event";
  source_fingerprint = "f";
  evidence_scope = "GENERIC_DEMO_FORWARD";
  strategy_version_id = none;
  publication_id = some "pub";
  observed_time = observed;
}

abbrev store : Store
store = record {
  journals =
      journal "trigger" "GENERIC_TELEMETRY" (some "09:00")
      ∷ journal "healthy" "GENERIC_TELEMETRY" (some "09:20")
      ∷ [];
  publications = record { id = "pub"; status = waiting; entry_control = none } ∷ [];
  telemetry = record { id = "event"; event_type = "HEARTBEAT"; event_code = "OK" } ∷ [];
  incidents = [];
  acknowledgements = [];
  resolutions = [];
}

abbrev request : IncidentRequest
request = record {
  keys = "signal" ∷ "reason_code" ∷ "trigger_journal_item_id" ∷ "detected_at" ∷ [];
  reason_code = "STALE_OR_MISSING_HEARTBEAT";
  trigger_journal_item_id = "trigger";
  detected_at = some "09:10";
  signal = some (("heartbeat_state", some "STALE") ∷ []);
}

abbrev incident_after : Result (Incident × Bool) × Store → Option Incident
incident_after (ok (i, reused), s) = some i
incident_after (raised message, s) = none

abbrev heartbeat : Incident
heartbeat = record {
  id = "i1";
  incident_key =
      "GOVERNANCE_INCIDENT_RECOVERY_V1STALE_OR_MISSING_HEARTBEATtriggerGENERIC_DEMO_PUBLICATIONpubiso";
  fingerprint =
      "GOVERNANCE_INCIDENT_RECOVERY_V1STALE_OR_MISSING_HEARTBEATtriggerGENERIC_DEMO_PUBLICATIONpubisopolicytriggerpairs";
  protocol_version = "GOVERNANCE_INCIDENT_RECOVERY_V1";
  policy_fingerprint = "policy";
  reason_code = "STALE_OR_MISSING_HEARTBEAT";
  severity = high;
  trigger_journal_item_id = "trigger";
  trigger_journal_fingerprint = "trigger";
  subject = ("GENERIC_DEMO_PUBLICATION", "pub");
  strategy_version_id = none;
  publication_id = some "pub";
  detected_at = 910;
  entry_block_required = true;
  entry_block_state = installed;
  readiness_blocked = true;
  signal = record {
    facts = ("heartbeat_state", "STALE") ∷ [];
    source_type = "GENERIC_TELEMETRY";
    source_fingerprint = "f";
  };
}

abbrev control : Control
control = record {
  reason_code = "STALE_OR_MISSING_HEARTBEAT";
  issued_at = 910;
  system_safety_action = true;
}

abbrev after : Store
after = record store {
  publications = record { id = "pub"; status = entries_blocked; entry_control = some control } ∷ [];
  incidents = heartbeat ∷ [];
}

created : materialize outside (call 915 "i1") request store ≡ (ok (heartbeat, false), after)
unfolding materialize check_incident check_request validated_signal check_signal check_facts policy
    get utc settle_incident identity_of evidence_of create_incident protect protect_at block_entries
    block_at install_block put_publication commit_incident find append_text subject_of is_private
created = refl

abbrev phrase : String
phrase = "ACKNOWLEDGED — BLOCK REMAINS — i1"

abbrev receipt : Acknowledgement
receipt = record {
  id = "a1";
  incident_id = "i1";
  incident_fingerprint = heartbeat.fingerprint;
  fingerprint =
      outside.hash (acknowledgement_content "GOVERNANCE_INCIDENT_RECOVERY_V1" heartbeat phrase);
  protocol_version = "GOVERNANCE_INCIDENT_RECOVERY_V1";
  acknowledgement_phrase = phrase;
  phrase_fingerprint = phrase;
  acknowledged_at = 916;
}

abbrev reviewed : Store
reviewed = record after { acknowledgements = receipt ∷ [] }

abbrev recovery : RecoveryRequest
recovery = record {
  keys = "resolved_at" ∷ "evidence_journal_item_ids" ∷ [];
  evidence_journal_item_ids = some (some "healthy" ∷ []);
  resolved_at = some "09:30";
}

abbrev recovered : Recovery
recovered = record {
  acknowledgement = receipt;
  journals = journal "healthy" "GENERIC_TELEMETRY" (some "09:20") ∷ [];
  resolved_at = 930;
}

abbrev resolution : Resolution
resolution = new_resolution outside (call 931 "r1") heartbeat recovered

abbrev closed : Store
closed = record reviewed { resolutions = resolution ∷ [] }

run : Run outside after closed
unfolding acknowledge acknowledgement_phrase append_text commit_acknowledgement find resolve
    check_resolution policy get check_ids texts_of check_all_evidence check_evidence check_source
    utc settle_resolution commit_resolution sort_texts
run =
    resolved {t = reviewed} (call 931 "r1") heartbeat recovery
      (acknowledged {t = after} (call 916 "a1") heartbeat phrase (here after) (λ v. here v) refl)
      (λ v. here v) refl

Run-incident_of_example : incident_of heartbeat.incident_key closed ≡ some heartbeat
unfolding find
Run-incident_of_example = Run-incident_of run heartbeat.incident_key heartbeat refl

Run-IsBlocked_example : IsBlocked "pub" closed
unfolding find
Run-IsBlocked_example = Run-IsBlocked run "pub" (_, refl, refl)

Run-IsChained_example :
    (resolution_for "i1" after ≡ some resolution) ⊎ IsChained "i1" resolution closed
unfolding find
Run-IsChained_example = Run-IsChained run "i1" resolution refl

Run-rank_example : rank (state_of heartbeat after) ≤ rank (state_of heartbeat closed)
Run-rank_example = Run-rank run heartbeat

materialize-IsBlocked_example :
    IsBlocked
      (text_of heartbeat.publication_id)
      (materialize outside (call 915 "i1") request store).1
materialize-IsBlocked_example =
    materialize-IsBlocked outside (call 915 "i1") request heartbeat store (λ v. here v)
      (ap (λ r. r.0) created) refl

resolve-refuses_example :
    (message : String) × (resolve outside (call 931 "r1") heartbeat recovery after
      ≡ (raised message, after))
unfolding find
resolve-refuses_example =
    resolve-refuses outside (call 931 "r1") heartbeat recovery after (inl refl)

materialize-verify_example :
    passed (verify outside heartbeat (materialize outside (call 915 "i1") request store).1) ≡ true
unfolding find
materialize-verify_example =
    materialize-verify outside (call 915 "i1") request heartbeat store (λ v. here v)
      (ap (λ r. r.0) created) (ap (λ r. ack_for "i1" r.1) created)
      (ap (λ r. resolution_for "i1" r.1) created)

materialize-again_example :
    materialize outside
      (call 915 "i2")
      request
      (materialize outside (call 915 "i1") request store).1
    ≡ (ok (heartbeat, true), (materialize outside (call 915 "i1") request store).1)
materialize-again_example =
    materialize-again outside (call 915 "i1") (call 915 "i2") request heartbeat store (λ v. here v)
      (ap (λ r. r.0) created) refl
