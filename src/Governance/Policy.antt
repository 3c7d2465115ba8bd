-- ===== src/Governance/Policy.antt =====
-- The policy of services/research/app/governance_incidents.py and the checks of a request against it.
use arkana.Base.{
  ℕ, ◌+◌, Bool, true, false, ◌&&◌, Option, none, some, List, [], ◌∷◌, map, Result, ok, raised,
  ◌>>=◌, String, ltb, leb, Dict, get, string_key, str_eq, text_in, codes, occurs, any_of, all_of,
  if◌then◌else◌,
}
use arkana.Governance.{
  Severity, critical, high, medium, low, Rule, Journal, Outside, malformed, naive, instant,
}

-- The keys of `SOURCE_REGISTRY` of services/research/app/governance_journal.py.
abbrev registered : List String
registered =
    "HISTORICAL_BACKTEST" ∷ "HISTORICAL_OOS" ∷ "HISTORICAL_ROBUSTNESS"
    ∷ "HISTORICAL_EVIDENCE_DECISION" ∷ "HISTORICAL_EVIDENCE_VERIFICATION" ∷ "LIFECYCLE_ELIGIBILITY"
    ∷ "LIFECYCLE_OWNER_CONFIRMATION" ∷ "LIFECYCLE_PROMOTION" ∷ "LIFECYCLE_RETIREMENT"
    ∷ "LIFECYCLE_VERIFICATION" ∷ "ROUTER_ELIGIBILITY" ∷ "ROUTER_DECISION" ∷ "ROUTER_PARAMETERS"
    ∷ "ROUTER_VERIFICATION" ∷ "LEGACY_DEPLOYMENT" ∷ "LEGACY_JOURNAL" ∷ "LEGACY_TRADE"
    ∷ "GENERIC_DEMO_CONTRACT" ∷ "GENERIC_COMPILATION" ∷ "GENERIC_PUBLICATION" ∷ "GENERIC_TELEMETRY"
    ∷ "GENERIC_FORWARD_EVIDENCE" ∷ "GENERIC_CHAIN_VERIFICATION" ∷ []

abbrev rule : Severity → String → List String → List String → List String → Bool → Rule
rule severity fact values recovery event_codes recoverable = record {
  severity = severity;
  facts = (fact, values) ∷ [];
  recovery = recovery;
  event_codes = event_codes;
  recoverable = recoverable;
}

unfoldable pub policy : Dict String Rule
policy =
    (
      "LIVE_CONTAMINATION",
      rule critical "environment" ("LIVE" ∷ []) ("GENERIC_TELEMETRY" ∷ [])
          ("LIVE_ISOLATION_VERIFIED" ∷ []) true,
    )
    ∷ (
      "EMERGENCY_CONTROL_FAILURE",
      rule critical "emergency_control_state" ("FAILED" ∷ "MISSING" ∷ "CORRUPT" ∷ [])
          ("GENERIC_TELEMETRY" ∷ []) ("EMERGENCY_CONTROL_OK" ∷ []) true,
    )
    ∷ (
      "CORRUPT_ACTIVE_CONFIG",
      rule critical "config_state" ("CORRUPT" ∷ [])
          ("GENERIC_TELEMETRY" ∷ "GENERIC_PUBLICATION" ∷ []) ("CONFIG_VERIFIED" ∷ []) true,
    )
    ∷ (
      "WRONG_ENVIRONMENT_OR_ACCOUNT",
      rule critical "identity_state" ("MISMATCH" ∷ []) ("GENERIC_TELEMETRY" ∷ [])
          ("IDENTITY_VERIFIED" ∷ []) true,
    )
    ∷ (
      "LIFECYCLE_INVALIDATED_WHILE_ACTIVE",
      rule critical "lifecycle_state" ("INVALIDATED" ∷ []) ("LIFECYCLE_VERIFICATION" ∷ []) [] true,
    )
    ∷ (
      "ENTRY_CONTROL_FAILURE",
      rule critical "entry_control_state" ("FAILED" ∷ "MISSING" ∷ "CORRUPT" ∷ [])
          ("GENERIC_TELEMETRY" ∷ []) ("ENTRY_BLOCK_CONFIRMED" ∷ []) true,
    )
    ∷ (
      "LEGACY_ISOLATION_BREACH",
      rule critical "isolation_state" ("BREACHED" ∷ []) ("GENERIC_CHAIN_VERIFICATION" ∷ []) [] true,
    )
    ∷ (
      "STALE_OR_MISSING_HEARTBEAT",
      rule high "heartbeat_state" ("STALE" ∷ "MISSING" ∷ []) ("GENERIC_TELEMETRY" ∷ [])
          ("OK" ∷ "HEALTHY" ∷ "FRESH" ∷ []) true,
    )
    ∷ (
      "PUBLICATION_CONFIG_MISMATCH",
      rule high "config_state" ("MISMATCH" ∷ []) ("GENERIC_TELEMETRY" ∷ "GENERIC_PUBLICATION" ∷ [])
          ("CONFIG_VERIFIED" ∷ []) true,
    )
    ∷ (
      "ORPHAN_ORDER_DEAL_LINEAGE",
      rule high "lineage_state" ("ORPHAN" ∷ []) ("GENERIC_TELEMETRY" ∷ [])
          ("ORDER_LINEAGE_RECONCILED" ∷ []) true,
    )
    ∷ ("STRATEGY_RETIRED", rule high "lifecycle_state" ("RETIRED" ∷ []) [] [] false)
    ∷ (
      "RESTART_RECOVERY_FAILURE",
      rule high "recovery_state" ("FAILED" ∷ []) ("GENERIC_TELEMETRY" ∷ [])
          ("RESTART_RECOVERED" ∷ []) true,
    )
    ∷ (
      "ROUTER_INTEGRITY_FAILURE",
      rule high "router_state" ("FAILED" ∷ "TAMPERED" ∷ []) ("ROUTER_VERIFICATION" ∷ []) [] true,
    )
    ∷ (
      "SERVICE_UNAVAILABLE",
      rule high "service_state" ("UNAVAILABLE" ∷ []) ("GENERIC_TELEMETRY" ∷ [])
          ("SERVICE_RECOVERED" ∷ []) true,
    )
    ∷ (
      "ROLLBACK_FAILURE",
      rule high "rollback_state" ("FAILED" ∷ []) ("GENERIC_TELEMETRY" ∷ [])
          ("ROLLBACK_VERIFIED" ∷ []) true,
    )
    ∷ (
      "COST_SLIPPAGE_UNAVAILABLE",
      rule medium "execution_cost_state" ("UNAVAILABLE" ∷ []) ("GENERIC_FORWARD_EVIDENCE" ∷ []) []
          true,
    )
    ∷ (
      "BROKER_CAPITAL_STALE",
      rule medium "broker_capital_state" ("STALE" ∷ "UNAVAILABLE" ∷ [])
          ("GENERIC_DEMO_CONTRACT" ∷ "GENERIC_FORWARD_EVIDENCE" ∷ []) [] true,
    )
    ∷ (
      "TELEMETRY_CONFLICT",
      rule medium "telemetry_state" ("CONFLICT" ∷ [])
          ("GENERIC_TELEMETRY" ∷ "GENERIC_CHAIN_VERIFICATION" ∷ []) ("TELEMETRY_RECONCILED" ∷ [])
          true,
    )
    ∷ (
      "NON_SAFETY_METADATA_INCOMPLETE",
      rule low "metadata_state" ("INCOMPLETE" ∷ []) registered [] true,
    )
    ∷ []

abbrev pub protocol_version : String
protocol_version = "GOVERNANCE_INCIDENT_RECOVERY_V1"

abbrev forbidden_tokens : List String
forbidden_tokens =
    "account" ∷ "login" ∷ "server" ∷ "authorization" ∷ "secret" ∷ "password" ∷ "path" ∷ "raw"
    ∷ "payload" ∷ []

-- `set(a) == set(b)`
abbrev pub same_set : List String → List String → Bool
same_set a b = all_of (λ k. text_in k b) a && all_of (λ k. text_in k a) b

abbrev keys : {V : Type 0} → Dict String V → List String
keys d = map (λ item. item.0) d

-- `str.lower` on ASCII letters, which the names of the facts are.
abbrev lower : ℕ → ℕ
lower c = if leb 65 c && leb c 90 then c + 32 else c

unfoldable pub is_private : String → Bool
is_private key = any_of (λ token. occurs (codes token) (map lower (codes key))) forbidden_tokens

-- A value that is no text is `none`.
unfoldable pub check_facts :
    Dict String (List String) → Dict String (Option String) → Result (Dict String String)
unfolding is_private
check_facts [] value = ok []
check_facts ((key, allowed) ∷ rest) value =
    if is_private key
    then raised "signal contains a forbidden privacy-sensitive field"
    else (elim (get key value) [
      | some (some item) ↦
          if text_in item allowed
          then (do others ← check_facts rest value; ok ((key, item) ∷ others))
          else raised "invalid deterministic signal value"
      | some none ↦ raised "invalid deterministic signal value"
      | none ↦ raised "invalid deterministic signal value"
    ])

-- A signal that is no dictionary is `none`.
unfoldable pub check_signal :
    Rule → Option (Dict String (Option String)) → Result (Dict String String)
unfolding check_facts
check_signal r none = raised "signal facts must contain exactly the facts of the reason"
check_signal r (some value) =
    if same_set (keys value) (keys r.facts)
    then check_facts r.facts value
    else raised "signal facts must contain exactly the facts of the reason"

unfoldable pub validated_signal :
    String → Option (Dict String (Option String)) → Result (Rule × Dict String String)
unfolding policy check_signal
validated_signal reason_code value = elim (get reason_code policy) [
  | none ↦ raised "unknown incident reason_code"
  | some r ↦ (do facts ← check_signal r value; ok (r, facts))
]

-- `_utc`: a time that is no text is `none`. Five minutes are 300,000,000 microseconds.
unfoldable pub utc : Outside → Option String → ℕ → Result ℕ
utc o none now = raised "must be an ISO-8601 UTC timestamp"
utc o (some value) now = elim (o.read_time value) [
  | malformed ↦ raised "must be an ISO-8601 UTC timestamp"
  | naive ↦ raised "must include an explicit timezone"
  | instant parsed ↦
      if ltb (now + 300000000) parsed then raised "cannot be in the future" else ok parsed
]

-- `_subject`; an empty text is false.
unfoldable pub subject_of : Journal → String × String
subject_of j =
    let unpublished : String × String =
      if str_eq j.evidence_scope "ROUTER"
      then ("ROUTER_EVIDENCE", j.source_id)
      else if str_eq j.evidence_scope "LEGACY_DEMO"
      then ("LEGACY_EVIDENCE", j.source_id)
      else ("JOURNAL_SOURCE", j.source_id) in
    let unversioned : String × String = elim j.strategy_version_id [
      | none ↦ unpublished
      | some id ↦ if str_eq id "" then unpublished else ("STRATEGY_VERSION", id)
    ] in
    elim j.publication_id [
      | none ↦ unversioned
      | some id ↦ if str_eq id "" then unversioned else ("GENERIC_DEMO_PUBLICATION", id)
    ]

-- Critical and high incidents block entries, and medium ones block readiness too.
abbrev pub blocks_entries : Severity → Bool
blocks_entries critical = true
blocks_entries high = true
blocks_entries medium = false
blocks_entries low = false

abbrev pub blocks_readiness : Severity → Bool
blocks_readiness critical = true
blocks_readiness high = true
blocks_readiness medium = true
blocks_readiness low = false
