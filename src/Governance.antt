-- ===== src/Governance.antt =====
-- services/research/app/governance_incidents.py: the rows that the incident protocol reads and writes,
-- its policy, and the checks of a request. A row's id is text; a time is a count of microseconds.
-- The database is a `Store` of tables, the newest row first.
pub mod Policy
pub mod Calls
pub mod Incidents
pub mod Acknowledge
pub mod Resolve
pub mod Verify
pub mod Growth
pub mod Runs
pub mod Block
pub mod Verified
mod Examples
use arkana.Base.{
  ℕ, ◌+◌, ◌*◌, Bool, true, false, not, ◌&&◌, ◌||◌, Option, none, some, List, [], ◌∷◌, map, Result,
  ok, raised, String, ltb, leb, Dict, get, string_key, str_eq, text_in, any_of, all_of,
  if◌then◌else◌,
}

pub data Severity : Type 0 where
  critical high medium low : Severity

pub record Rule : Type 0 where
  pub severity : Severity
  pub facts : Dict String (List String)
  pub recovery : List String
  pub event_codes : List String
  pub recoverable : Bool

pub record Journal : Type 0 where
  pub id : String
  pub fingerprint : String
  pub source_type : String
  pub source_id : String
  pub source_fingerprint : String
  pub evidence_scope : String
  pub strategy_version_id : Option String
  pub publication_id : Option String
  pub observed_time : Option String

-- Any status but the three that the control of entries knows is `other`.
pub data Status : Type 0 where
  waiting acknowledged entries_blocked other : Status

pub record Control : Type 0 where
  pub reason_code : String
  pub issued_at : ℕ
  pub system_safety_action : Bool

pub record Publication : Type 0 where
  pub id : String
  pub status : Status
  pub entry_control : Option Control

pub record Telemetry : Type 0 where
  pub id : String
  pub event_type : String
  pub event_code : String

pub data EntryState : Type 0 where
  not_applicable preserved installed : EntryState

pub record Signal : Type 0 where
  pub facts : Dict String String
  pub source_type : String
  pub source_fingerprint : String

pub record Incident : Type 0 where
  pub id : String
  pub incident_key : String
  pub fingerprint : String
  pub protocol_version : String
  pub policy_fingerprint : String
  pub reason_code : String
  pub severity : Severity
  pub trigger_journal_item_id : String
  pub trigger_journal_fingerprint : String
  pub subject : String × String
  pub strategy_version_id : Option String
  pub publication_id : Option String
  pub detected_at : ℕ
  pub entry_block_required : Bool
  pub entry_block_state : EntryState
  pub readiness_blocked : Bool
  pub signal : Signal

pub record Acknowledgement : Type 0 where
  pub id : String
  pub incident_id : String
  pub incident_fingerprint : String
  pub fingerprint : String
  pub protocol_version : String
  pub acknowledgement_phrase : String
  pub phrase_fingerprint : String
  pub acknowledged_at : ℕ

-- `entry_block_removed` and `live_authorized` are the two checks of `result` that `verify` reads.
pub record Resolution : Type 0 where
  pub id : String
  pub incident_id : String
  pub incident_fingerprint : String
  pub acknowledgement_id : String
  pub fingerprint : String
  pub protocol_version : String
  pub evidence_journal_item_ids : List String
  pub evidence_fingerprints : List String
  pub status : String
  pub entry_block_removed : Bool
  pub live_authorized : Bool
  pub resolved_at : ℕ

pub record Store : Type 0 where
  pub journals : List Journal
  pub publications : List Publication
  pub telemetry : List Telemetry
  pub incidents : List Incident
  pub acknowledgements : List Acknowledgement
  pub resolutions : List Resolution

-- The first row that meets a test: `session.get`, and `session.scalar` of a `where`.
unfoldable pub find : {A : Type 0} → (A → Bool) → List A → Option A
find test [] = none
find test (a ∷ rest) = if test a then some a else find test rest

abbrev pub journal_of : String → Store → Option Journal
journal_of id s = find (λ (j : Journal). str_eq j.id id) s.journals

abbrev pub publication_of : String → Store → Option Publication
publication_of id s = find (λ (p : Publication). str_eq p.id id) s.publications

abbrev pub telemetry_of : String → Store → Option Telemetry
telemetry_of id s = find (λ (t : Telemetry). str_eq t.id id) s.telemetry

abbrev pub incident_of : String → Store → Option Incident
incident_of key s = find (λ (i : Incident). str_eq i.incident_key key) s.incidents

-- `_ack_for` and `_resolution_for`
abbrev pub ack_for : String → Store → Option Acknowledgement
ack_for id s = find (λ (a : Acknowledgement). str_eq a.incident_id id) s.acknowledgements

abbrev pub resolution_for : String → Store → Option Resolution
resolution_for id s = find (λ (r : Resolution). str_eq r.incident_id id) s.resolutions

-- What is hashed: a dictionary of texts, lists of texts, facts and `None`.
pub data Content : Type 0 where
  text : String → Content
  texts : List String → Content
  pairs : Dict String String → Content
  absent : Content

-- What `datetime.fromisoformat` reads: nothing, a time with no timezone, or an instant.
pub data Parsed : Type 0 where
  malformed naive : Parsed
  instant : ℕ → Parsed

-- What stands outside of these modules: `hash` is sha256 of `canonical_json`, `digest` sha256 of a
-- text, `policy_fingerprint` the hash of the policy, `verified` whether `governance_journal.verify` passes, and `install` whether the control file
-- is written and read back.
pub record Outside : Type 0 where
  pub hash : Dict String Content → String
  pub digest : String → String
  pub policy_fingerprint : String
  pub read_time : String → Parsed
  pub iso : ℕ → String
  pub verified : Store → Journal → Bool
  pub install : Publication → String → ℕ → Bool
