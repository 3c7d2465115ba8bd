-- ===== src/Router/Examples.antt =====
-- Two eligible snapshots of one data set, of which one signals.
use arkana.Base.{
  ◌≤◌, ◌≡◌, refl, Bool, true, false, Option, some, List, [], ◌∷◌, map, ok, String, length, str_eq,
  sort_texts, if◌then◌else◌,
}
use arkana.Router.{
  Eligibility, CandidateStatus, signal, Candidate, Sources, candidate_of, has_dataset_conflict,
  keep_signal, signals_of, reasons_of, one_signal, conclude_on, conclude, Decision, eligibility_of,
  eligibilities_of, check_cohort, decision_of, commit_decision, settle_decision,
  materialize_decision,
}
use arkana.Router.Selection.{conclude-selected, conclude-none}
use arkana.Router.Reuse.{materialize_decision-again}

abbrev snapshot : String → Eligibility
snapshot id = record {
  id = id;
  router_policy_id = "policy";
  strategy_version_id = id;
  dataset_id = some "data";
  status = "ELIGIBLE";
  evaluated_at = 60;
}

abbrev rows : List Eligibility
rows = snapshot "a" ∷ snapshot "b" ∷ []

-- The first strategy's rules hold where the first argument is true; both trade short.
abbrev sources : Bool → Sources
sources holds = record {
  eligibilities = rows;
  has_policy = λ id. true;
  exact_report = λ e. (true, []);
  has_lineage = λ e. true;
  evaluate = λ e. ok (if str_eq e.id "a" then holds else false, some "SHORT");
  fingerprint = λ policy at candidates. policy;
}

abbrev first : CandidateStatus → Option String → Candidate
first status direction = record {
  eligibility_id = "a";
  strategy_version_id = "a";
  eligibility_status = "ELIGIBLE";
  eligibility_exact = true;
  status = status;
  direction = direction;
  reason_codes = [];
}

abbrev chosen : Candidate
chosen = first signal (some "SHORT")

conclude-selected_example :
    (signals_of (map (candidate_of (sources true) (has_dataset_conflict rows)) rows) ≡ chosen ∷ [])
    × (chosen.direction ≡ some (conclude (sources true) rows).decision)
    × ((chosen.eligibility_exact ≡ true)
        × (chosen.eligibility_status ≡ "ELIGIBLE")
        × (has_dataset_conflict rows ≡ false))
unfolding conclude conclude_on one_signal signals_of keep_signal candidate_of has_dataset_conflict
    reasons_of
conclude-selected_example = conclude-selected (sources true) rows chosen refl

conclude-none_example :
    ((conclude (sources false) rows).decision ≡ "NO_TRADE")
    × (1 ≤ length (conclude (sources false) rows).reason_codes)
unfolding conclude conclude_on one_signal signals_of keep_signal candidate_of has_dataset_conflict
    reasons_of
conclude-none_example = conclude-none (sources false) rows refl

abbrev decision : Decision
decision = record {
  id = "d1";
  router_policy_id = "policy";
  dataset_id = some "data";
  evaluated_at = 60;
  fingerprint = "policy";
  conclusion = conclude (sources true) rows;
}

materialize_decision-again_example :
    (found : List Eligibility) × (policy : String) × (check_cohort
        (sources true)
        ("b" ∷ "a" ∷ [])
        60
      ≡ ok (found, policy))
    × (decision.conclusion ≡ conclude (sources true) found)
    × (materialize_decision
          (sources true)
          (λ t. t)
          "d2"
          ("b" ∷ "a" ∷ [])
          60
          (materialize_decision (sources true) (λ t. t) "d1" ("b" ∷ "a" ∷ []) 60 []).1
        ≡ (
          ok (decision, true),
          (materialize_decision (sources true) (λ t. t) "d1" ("b" ∷ "a" ∷ []) 60 []).1,
        ))
unfolding check_cohort eligibilities_of eligibility_of sort_texts settle_decision commit_decision
    decision_of materialize_decision
materialize_decision-again_example =
    materialize_decision-again (sources true) (λ t. t) (λ t. t) "d1" "d2" ("b" ∷ "a" ∷ []) 60
      decision [] refl
