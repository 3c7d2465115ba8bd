-- ===== src/Router.antt =====
-- `materialize` of services/research/app/strategy_router_decisions.py: one direction, or no trade, out of
-- an exact cohort of eligibility snapshots.
pub mod Selection
pub mod Reuse
mod Examples
use arkana.Base.{
  ℕ, ◌+◌, Bool, true, false, not, ◌&&◌, ◌||◌, Option, none, some, List, [], ◌∷◌, ◌++◌, map, Result,
  ok, raised, ◌>>=◌, String, ltb, leb, ◌==◌, length, str_eq, text_in, any_of, all_of, is_given,
  same_text?, sort_texts, are_distinct, if◌then◌else◌,
}

pub record Eligibility : Type 0 where
  pub id : String
  pub router_policy_id : String
  pub strategy_version_id : String
  pub dataset_id : Option String
  pub status : String
  pub evaluated_at : ℕ

pub data CandidateStatus : Type 0 where
  blocked signal no_signal : CandidateStatus

pub record Candidate : Type 0 where
  pub eligibility_id : String
  pub strategy_version_id : String
  pub eligibility_status : String
  pub eligibility_exact : Bool
  pub status : CandidateStatus
  pub direction : Option String
  pub reason_codes : List String

-- What the decision reads of the rest of the service: whether `exact_report` finds a snapshot exact, with
-- its current reason codes; whether its strategy and data set are there; and `_evaluate_candidate`, whose
-- evaluator says whether the strategy's rules hold, and in which direction the contract trades.
pub record Sources : Type 0 where
  pub eligibilities : List Eligibility
  pub has_policy : String → Bool
  pub exact_report : Eligibility → Bool × List String
  pub has_lineage : Eligibility → Bool
  pub evaluate : Eligibility → Result (Bool × Option String)
  pub fingerprint : String → ℕ → List Candidate → String

abbrev pub candidate :
    Eligibility → Bool → CandidateStatus → Option String → List String → Candidate
candidate e exact status direction reason_codes = record {
  eligibility_id = e.id;
  strategy_version_id = e.strategy_version_id;
  eligibility_status = e.status;
  eligibility_exact = exact;
  status = status;
  direction = direction;
  reason_codes = reason_codes;
}

abbrev pub evaluated : Eligibility → Result (Bool × Option String) → Candidate
evaluated e (raised message) = candidate e true blocked none ("CURRENT_INPUT_UNAVAILABLE" ∷ [])
evaluated e (ok (true, direction)) = candidate e true signal direction []
evaluated e (ok (false, direction)) = candidate e true no_signal none []

-- The body of the loop over the snapshots.
unfoldable pub candidate_of : Sources → Bool → Eligibility → Candidate
candidate_of sources dataset_conflict e =
    let (exact, current) = sources.exact_report e in
    if not exact
    then candidate e false blocked none ("STALE_ELIGIBILITY" ∷ [])
    else if not (str_eq e.status "ELIGIBLE")
    then candidate e true blocked none ("ELIGIBILITY_INELIGIBLE" ∷ current)
    else if dataset_conflict
    then candidate e true blocked none ("MULTIPLE_DATASET_SNAPSHOTS" ∷ [])
    else if not (sources.has_lineage e)
    then candidate e true blocked none ("DECISION_LINEAGE_UNAVAILABLE" ∷ [])
    else evaluated e (sources.evaluate e)

-- `len({...}) > 1` for the data sets of the eligible snapshots: two of them differ.
abbrev eligible_datasets : List Eligibility → List (Option String)
eligible_datasets [] = []
eligible_datasets (e ∷ rest) =
    let later = eligible_datasets rest in
    if str_eq e.status "ELIGIBLE" then e.dataset_id ∷ later else later

abbrev pub differ : List (Option String) → Bool
differ [] = false
differ (d ∷ rest) = any_of (λ other. not (same_text? d other)) rest

unfoldable pub has_dataset_conflict : List Eligibility → Bool
has_dataset_conflict rows = differ (eligible_datasets rows)

unfoldable pub keep_signal : CandidateStatus → Candidate → List Candidate → List Candidate
keep_signal signal c later = c ∷ later
keep_signal blocked c later = later
keep_signal no_signal c later = later

unfoldable pub signals_of : List Candidate → List Candidate
unfolding keep_signal
signals_of [] = []
signals_of (c ∷ rest) = keep_signal c.status c (signals_of rest)

unfoldable pub reasons_of : List Candidate → List String
reasons_of [] = []
reasons_of (c ∷ rest) = c.reason_codes ++ reasons_of rest

-- `set(xs)`, to be sorted
unfoldable pub unique : List String → List String
unique [] = []
unique (a ∷ rest) = let later = unique rest in if text_in a rest then later else a ∷ later

pub record Conclusion : Type 0 where
  pub decision : String
  pub selected : Option Candidate
  pub reason_codes : List String
  pub candidates : List Candidate

abbrev pub refused : List Candidate → List String → Conclusion
refused candidates blockers = record {
  decision = "NO_TRADE";
  selected = none;
  reason_codes = sort_texts (unique (blockers ++ "UNSUPPORTED_DIRECTION" ∷ []));
  candidates = candidates;
}

-- One candidate signals, with this direction.
unfoldable pub one_signal : Option String → Candidate → List Candidate → List String → Conclusion
unfolding unique
one_signal none c candidates blockers = refused candidates blockers
one_signal (some direction) c candidates blockers =
    if text_in direction ("LONG" ∷ "SHORT" ∷ "NO_TRADE" ∷ [])
    then record {
      decision = direction;
      selected = some c;
      reason_codes = sort_texts (unique blockers);
      candidates = candidates;
    }
    else refused candidates blockers

-- The end of the decision, by the candidates that signal.
unfoldable pub conclude_on : List Candidate → List Candidate → List String → Conclusion
unfolding unique one_signal
conclude_on candidates [] blockers = record {
  decision = "NO_TRADE";
  selected = none;
  reason_codes = elim blockers [
    | [] ↦ "NO_CANDIDATE_SIGNAL" ∷ []
    | b ∷ rest ↦ sort_texts (unique (b ∷ rest))
  ];
  candidates = candidates;
}
conclude_on candidates (c ∷ []) blockers = one_signal c.direction c candidates blockers
conclude_on candidates (c ∷ c' ∷ rest) blockers = record {
  decision = "NO_TRADE";
  selected = none;
  reason_codes = sort_texts (unique (blockers ++ "AMBIGUOUS_MULTIPLE_SIGNALS" ∷ []));
  candidates = candidates;
}

unfoldable pub conclude : Sources → List Eligibility → Conclusion
conclude sources rows =
    let conflict = has_dataset_conflict rows in
    let candidates = map (candidate_of sources conflict) rows in
    let blockers =
      (if conflict then "MULTIPLE_DATASET_SNAPSHOTS" ∷ [] else []) ++ reasons_of candidates in
    conclude_on candidates (signals_of candidates) blockers

pub record Decision : Type 0 where
  pub id : String
  pub router_policy_id : String
  pub dataset_id : Option String
  pub evaluated_at : ℕ
  pub fingerprint : String
  pub conclusion : Conclusion

unfoldable pub eligibility_of : String → List Eligibility → Option Eligibility
eligibility_of id [] = none
eligibility_of id (e ∷ rest) = if str_eq e.id id then some e else eligibility_of id rest

unfoldable pub eligibilities_of : List Eligibility → List String → Result (List Eligibility)
unfolding eligibility_of
eligibilities_of table [] = ok []
eligibilities_of table (id ∷ ids) = do
  e ← elim (eligibility_of id table) [
    | none ↦ raised "Every Router eligibility ID must exist"
    | some e ↦ ok e
  ]
  rest ← eligibilities_of table ids
  ok (e ∷ rest)

abbrev check : Bool → String → Result (Unit {0})
check test message = if test then ok tt else raised message

-- The one data set of the snapshots, if it is one.
abbrev one_dataset : List Eligibility → Option String
one_dataset [] = none
one_dataset (e ∷ rest) =
    if all_of (λ (other : Eligibility). same_text? e.dataset_id other.dataset_id) rest
    then e.dataset_id
    else none

-- The ids are a list of texts here, and one that is empty is refused with an empty text in it.
unfoldable pub check_cohort : Sources → List String → ℕ → Result (List Eligibility × String)
check_cohort sources ids evaluated_at = do
  some_ids ←
      check (leb 1 (length ids) && all_of (λ id. is_given (some id)) ids)
        "eligibility_ids must be a non-empty list of exact Router eligibility IDs"
  distinct ← check (are_distinct (sort_texts ids)) "eligibility_ids must not contain duplicates"
  rows ← eligibilities_of sources.eligibilities (sort_texts ids)
  timely ←
      check (all_of (λ (e : Eligibility). e.evaluated_at == evaluated_at) rows)
        "evaluated_at must exactly match every eligibility snapshot"
  policy ← elim rows [
    | [] ↦ raised "All eligibility snapshots must bind one exact Router policy"
    | e ∷ rest ↦
        if all_of (λ (other : Eligibility). str_eq e.router_policy_id other.router_policy_id) rest
        then ok e.router_policy_id
        else raised "All eligibility snapshots must bind one exact Router policy"
  ]
  bound ← check (sources.has_policy policy) "Router policy is unavailable"
  ok (rows, policy)

-- Decisions with the newest first; `others` is what other sessions commit before this call does.
unfoldable pub decision_of : String → List Decision → Option Decision
decision_of fingerprint [] = none
decision_of fingerprint (d ∷ rest) =
    if str_eq d.fingerprint fingerprint then some d else decision_of fingerprint rest

unfoldable pub commit_decision :
    (List Decision → List Decision)
    → Decision
    → List Decision
    → Result (Decision × Bool) × List Decision
commit_decision others item table =
    let later = others table in
    if any_of (λ (d : Decision). str_eq d.id item.id || str_eq d.fingerprint item.fingerprint) later
    then (
      (elim (decision_of item.fingerprint later) [
        | none ↦ raised "IntegrityError"
        | some existing ↦ ok (existing, true)
      ]),
      later,
    )
    else (ok (item, false), item ∷ later)

unfoldable pub settle_decision :
    Sources
    → (List Decision → List Decision)
    → String
    → ℕ
    → List Eligibility × String
    → List Decision
    → Result (Decision × Bool) × List Decision
settle_decision sources others new_id evaluated_at (rows, policy) table =
    let conclusion = conclude sources rows in
    let fingerprint = sources.fingerprint policy evaluated_at conclusion.candidates in
    let item : Decision = record {
      id = new_id;
      router_policy_id = policy;
      dataset_id = one_dataset rows;
      evaluated_at = evaluated_at;
      fingerprint = fingerprint;
      conclusion = conclusion;
    } in
    elim (decision_of fingerprint table) [
      | some existing ↦ (ok (existing, true), table)
      | none ↦ commit_decision others item table
    ]

unfoldable pub materialize_decision :
    Sources
    → (List Decision → List Decision)
    → String
    → List String
    → ℕ
    → List Decision
    → Result (Decision × Bool) × List Decision
materialize_decision sources others new_id ids evaluated_at table =
    elim (check_cohort sources ids evaluated_at) [
      | raised message ↦ (raised message, table)
      | ok cohort ↦ settle_decision sources others new_id evaluated_at cohort table
    ]
