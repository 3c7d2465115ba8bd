-- ===== src/Governance/Incidents.antt =====
-- The operations of services/research/app/governance_incidents.py: `materialize`, and `block_entries` of services/research/app/generic_mt5_publications.py. Each gives its
-- result and the store after it, also when it raises.
use arkana.Base.{
  ℕ, Bool, true, false, not, ◌&&◌, ◌||◌, Option, none, some, List, [], ◌∷◌, ◌++◌, Result, ok,
  raised, ◌>>=◌, String, leb, Dict, string_key, str_eq, codes, all_of, any_of, length, is_given,
  same_text?, if◌then◌else◌,
}
use arkana.Governance.{
  Rule, Journal, Status, waiting, acknowledged, entries_blocked, other, Publication, EntryState,
  not_applicable, preserved, installed, Incident, Store, find, journal_of, publication_of,
  incident_of, Content, text, pairs, Outside,
}
use arkana.Governance.Policy.{
  protocol_version, same_set, validated_signal, utc, subject_of, blocks_entries, blocks_readiness,
}
use arkana.Governance.Calls.{Call, guarded, found, instead, winner}

-- A request with its keys; the field of a key that is missing is not read.
pub record IncidentRequest : Type 0 where
  pub keys : List String
  pub reason_code : String
  pub trigger_journal_item_id : String
  pub detected_at : Option String
  pub signal : Option (Dict String (Option String))

pub record Prepared : Type 0 where
  pub reason_code : String
  pub rule : Rule
  pub facts : Dict String String
  pub journal : Journal
  pub detected : ℕ

-- `row` is what is found for the trigger's id.
unfoldable pub check_request : Outside → ℕ → IncidentRequest → Option Journal → Result Prepared
unfolding validated_signal utc
check_request o now p row =
    guarded
      (same_set p.keys ("reason_code" ∷ "trigger_journal_item_id" ∷ "detected_at" ∷ "signal" ∷ []))
      "incident request requires exactly reason_code, trigger_journal_item_id, detected_at, and signal"
      (do
        (rule, facts) ← validated_signal p.reason_code p.signal
        journal ← found (row) "trigger governance journal item not found"
        detected ← utc o p.detected_at now
        observed ← instead (utc o journal.observed_time now) "trigger journal time is invalid"
        guarded (leb observed detected) "incident cannot predate its trigger journal observation" (
            ok (record {
              reason_code = p.reason_code;
              rule = rule;
              facts = facts;
              journal = journal;
              detected = detected;
            })))

unfoldable pub check_incident : Outside → ℕ → IncidentRequest → Store → Result Prepared
unfolding check_request
check_incident o now p s = check_request o now p (journal_of p.trigger_journal_item_id s)

unfoldable pub identity_of : Outside → String → Journal → String × String → ℕ → Dict String Content
identity_of o reason_code journal subject detected =
    ("protocol_version", text protocol_version)
    ∷ ("reason_code", text reason_code)
    ∷ ("trigger_journal_item_id", text journal.id)
    ∷ ("subject_type", text subject.0)
    ∷ ("subject_id", text subject.1)
    ∷ ("detected_at", text (o.iso detected))
    ∷ []

-- `{**identity, ...}`
unfoldable pub evidence_of :
    Outside → Dict String Content → Journal → Dict String String → Dict String Content
evidence_of o identity journal signal =
    identity
    ++ (("policy_fingerprint", text o.policy_fingerprint)
        ∷ ("trigger_journal_fingerprint", text journal.fingerprint)
        ∷ ("signal", pairs signal)
        ∷ [])

-- The characters of a reason code: a publication's own control accepts no other.
abbrev pub is_code : ℕ → Bool
is_code c = (leb 65 c && leb c 90) || (leb 48 c && leb c 57) || leb c 95 && leb 95 c

unfoldable pub put_publication : Publication → List Publication → List Publication
put_publication p [] = []
put_publication p (q ∷ rest) = if str_eq q.id p.id then p ∷ rest else q ∷ put_publication p rest

abbrev pub blocked_by : Publication → String → ℕ → Bool → Publication
blocked_by p reason now system_safety_action = record p {
  status = entries_blocked;
  entry_control = some (record {
    reason_code = reason;
    issued_at = now;
    system_safety_action = system_safety_action;
  });
}

unfoldable pub install_block :
    Outside → Publication → String → ℕ → Bool → Store → Result (Publication × Bool) × Store
unfolding put_publication
install_block o p reason now system_safety_action s =
    let p' = blocked_by p reason now system_safety_action in
    if o.install p reason now
    then (ok (p', false), record s { publications = put_publication p' s.publications })
    else (raised "failed to install fail-safe generic DEMO entry block", s)

-- The tests of the publication's status, the first argument.
unfoldable pub block_at :
    Status → Outside → Publication → String → ℕ → Bool → Store → Result (Publication × Bool) × Store
unfolding install_block
block_at entries_blocked o p reason now system_safety_action s =
    let own : Option String = elim p.entry_control [ none ↦ none | some k ↦ some k.reason_code ] in
    (
      (if same_text? own (some reason)
          then ok (p, true)
          else raised "publication is already blocked with a different immutable reason"),
      s,
    )
block_at other o p reason now system_safety_action s =
    (raised "only a waiting or acknowledged DEMO publication can block entries", s)
block_at waiting o p reason now system_safety_action s =
    install_block o p reason now system_safety_action s
block_at acknowledged o p reason now system_safety_action s =
    install_block o p reason now system_safety_action s

-- `reason` is a key of the policy here, with no blanks for `strip` to remove.
unfoldable pub block_entries :
    Outside → Publication → String → String → ℕ → Bool → Store → Result (Publication × Bool) × Store
unfolding block_at
block_entries o p authorization reason now system_safety_action s =
    let count = length (codes reason) in
    if not system_safety_action && not (str_eq authorization "BLOCK_GENERIC_DEMO_ENTRIES_V1")
    then (raised "authorization must equal BLOCK_GENERIC_DEMO_ENTRIES_V1", s)
    else if not (leb 1 count && leb count 96 && all_of is_code (codes reason))
    then (raised "reason_code must be 1 to 96 uppercase letters, digits, or underscores", s)
    else block_at p.status o p reason now system_safety_action s

abbrev pub entry_required : Prepared → Bool
entry_required x = is_given x.journal.publication_id && blocks_entries x.rule.severity

-- The publication's id, which is there where entries are to be blocked.
abbrev pub text_of : Option String → String
text_of none = ""
text_of (some id) = id

unfoldable pub protect_at :
    Status → Outside → Prepared → Publication → Store → Result EntryState × Store
unfolding block_entries
protect_at entries_blocked o x p s = (ok preserved, s)
protect_at other o x p s =
    (raised "applicable publication cannot install or preserve the fail-safe entry block", s)
protect_at waiting o x p s =
    let (r, s') = block_entries o p "" x.reason_code x.detected true s in
    ((r >>= λ _. ok installed), s')
protect_at acknowledged o x p s =
    let (r, s') = block_entries o p "" x.reason_code x.detected true s in
    ((r >>= λ _. ok installed), s')

-- The fail-safe block that an incident asks for.
unfoldable pub protect : Outside → Prepared → Store → Result EntryState × Store
unfolding protect_at
protect o x s =
    if not (entry_required x)
    then (ok not_applicable, s)
    else (elim (publication_of (text_of x.journal.publication_id) s) [
      | none ↦ (raised "incident publication lineage is missing", s)
      | some p ↦ protect_at p.status o x p s
    ])

abbrev pub new_incident : Outside → Call → Prepared → String → String → EntryState → Incident
new_incident o c x key fingerprint entry_state = record {
  id = c.new_id;
  incident_key = key;
  fingerprint = fingerprint;
  protocol_version = protocol_version;
  policy_fingerprint = o.policy_fingerprint;
  reason_code = x.reason_code;
  severity = x.rule.severity;
  trigger_journal_item_id = x.journal.id;
  trigger_journal_fingerprint = x.journal.fingerprint;
  subject = subject_of x.journal;
  strategy_version_id = x.journal.strategy_version_id;
  publication_id = x.journal.publication_id;
  detected_at = x.detected;
  entry_block_required = entry_required x;
  entry_block_state = entry_state;
  readiness_blocked = blocks_readiness x.rule.severity;
  signal = record {
    facts = x.facts;
    source_type = x.journal.source_type;
    source_fingerprint = x.journal.source_fingerprint;
  };
}

-- The unique columns, the primary key among them.
abbrev pub clashes_incident : Incident → Incident → Bool
clashes_incident a b =
    str_eq a.id b.id || str_eq a.incident_key b.incident_key || str_eq a.fingerprint b.fingerprint

-- `session.add` and `session.commit`, with the handler of `IntegrityError`.
unfoldable pub commit_incident : Call → Incident → Store → Result (Incident × Bool) × Store
unfolding find
commit_incident c item s =
    let t = c.others s in
    if any_of (λ i. clashes_incident i item) t.incidents
    then (
      winner (incident_of item.incident_key t) (λ (i : Incident). i.fingerprint) item.fingerprint
          "incident identity conflicts with a concurrent immutable write",
      t,
    )
    else (ok (item, false), record t { incidents = item ∷ t.incidents })

unfoldable pub create_incident :
    Outside → Call → Prepared → String → String → Store → Result (Incident × Bool) × Store
create_incident o c x key fingerprint s =
    let (r, s') = protect o x s in
    elim r [
      | raised message ↦ (raised message, s')
      | ok entry_state ↦ commit_incident c (new_incident o c x key fingerprint entry_state) s'
    ]

unfoldable pub settle_incident :
    Outside → Call → Prepared → Store → Result (Incident × Bool) × Store
settle_incident o c x s =
    let identity = identity_of o x.reason_code x.journal (subject_of x.journal) x.detected in
    let key = o.hash identity in
    let fingerprint = o.hash (evidence_of o identity x.journal x.facts) in
    elim (incident_of key s) [
      | some existing ↦ (
        winner (some existing) (λ (i : Incident). i.fingerprint) fingerprint
            "incident identity conflicts with different immutable signal evidence",
        s,
      )
      | none ↦
          if o.verified s x.journal
          then create_incident o c x key fingerprint s
          else (raised "trigger governance journal source integrity failed", s)
    ]

unfoldable pub materialize :
    Outside → Call → IncidentRequest → Store → Result (Incident × Bool) × Store
materialize o c p s = elim (check_incident o c.now p s) [
  | raised message ↦ (raised message, s)
  | ok x ↦ settle_incident o c x s
]
