-- ===== src/Governance/Verified.antt =====
-- What the incident protocol writes passes its own verification, and a repeated request finds it.
use arkana.Base.{
  ◌≡◌, refl, sym, ap, ◌∙◌, subst, Bool, true, false, Option, none, some, ok, String, ℕ, str_eq,
  eq_iff, Option-cases, inl, inr, >>=-eq-ok, ok-injective, get, string_key, Dict, leb, List, ◌∷◌,
}
use arkana.Governance.{
  EntryState, Severity, critical, high, medium, low, Rule, Journal, Incident, Store, Outside, find,
  journal_of, incident_of, ack_for, resolution_for,
}
use arkana.Governance.Policy.{policy, validated_signal, check_signal, utc}
use arkana.Governance.Calls.{Call, found, instead, guarded-eq-ok, found-eq-ok}
use arkana.Governance.Incidents.{
  Prepared, IncidentRequest, check_request, check_incident, protect, new_incident, materialize,
  settle_incident,
}
use arkana.Governance.Verify.{same_severity, policy_check, signal_check, verify, passed}
use arkana.Governance.Runs.{Run, Run-Grows}
use arkana.Governance.Growth.{Grows}
use arkana.Governance.Growth.Blocks.{protect-Grows}
use arkana.Governance.Block.{find-test, added, key_of, fingerprint_of, materialize-Created}

str_eq_refl : (a : String) → str_eq a a ≡ true
str_eq_refl a = (eq_iff a a).1 refl

validated_signal-eq-ok :
    (code : String) (value : Option (Dict String (Option String))) (r : Rule)
    (facts : Dict String String)
    → validated_signal code value ≡ ok (r, facts)
    → get code policy ≡ some r
unfolding validated_signal
validated_signal-eq-ok code value r facts e = elim (Option-cases (get code policy)) [
  | inl unknown ↦ cc (rw (unknown, validated_signal) at e)
  | inr (rule, listed) ↦
      let (facts', _, done) =
        >>=-eq-ok (check_signal rule value) _ (rw (listed, validated_signal) at e) in
      listed ∙ ap (λ q. some q.0) (ok-injective done)
]

-- A prepared incident comes from its request, the policy and the journal.
check_incident-eq-ok :
    (o : Outside) (now : ℕ) (p : IncidentRequest) (s : Store) (x : Prepared)
    → check_incident o now p s ≡ ok x
    → (get x.reason_code policy ≡ some x.rule)
      × (journal_of p.trigger_journal_item_id s ≡ some x.journal)
unfolding check_incident
check_incident-eq-ok o now p s x e =
    let (_, e₁) = guarded-eq-ok _ _ e in
    let ((r, facts), signal, e₂) = >>=-eq-ok (validated_signal p.reason_code p.signal) _ e₁ in
    let (j, there, e₃) = >>=-eq-ok (found (journal_of p.trigger_journal_item_id s) _) _ e₂ in
    let (detected, _, e₄) = >>=-eq-ok (utc o p.detected_at now) _ e₃ in
    let (observed, _, e₅) = >>=-eq-ok (instead (utc o j.observed_time now) _) _ e₄ in
    let (_, e₆) = guarded-eq-ok (leb observed detected) _ e₅ in
    let made : Prepared = record {
      reason_code = p.reason_code;
      rule = r;
      facts = facts;
      journal = j;
      detected = detected;
    } in
    let same : made ≡ x = ok-injective e₆ in
    subst
      (λ (y : Prepared).
        (get y.reason_code policy ≡ some y.rule)
        × (journal_of p.trigger_journal_item_id s ≡ some y.journal))
      same
      (
        validated_signal-eq-ok p.reason_code p.signal r facts signal,
        found-eq-ok (journal_of p.trigger_journal_item_id s) _ there,
      )

same_severity_refl : (v : Severity) → same_severity v v ≡ true
same_severity_refl critical = refl
same_severity_refl high = refl
same_severity_refl medium = refl
same_severity_refl low = refl

module _ (o : Outside) (c : Call) (x : Prepared) (state : EntryState) (t : Store) where
  verify-new :
      get x.reason_code policy ≡ some x.rule
      → journal_of x.journal.id t ≡ some x.journal
      → ack_for c.new_id t ≡ none
      → resolution_for c.new_id t ≡ none
      → passed (verify o (new_incident o c x (key_of o c t x) (fingerprint_of o c t x) state) t)
        ≡ true
  unfolding verify policy_check signal_check
  verify-new listed there unseen unresolved =
      rw
        (
          listed,
          there,
          unseen,
          unresolved,
          str_eq_refl x.journal.fingerprint,
          str_eq_refl o.policy_fingerprint,
          str_eq_refl (key_of o c t x),
          str_eq_refl (fingerprint_of o c t x),
          same_severity_refl x.rule.severity,
          verify,
          policy_check,
          signal_check,
        )
        refl

-- The row of a journal item is found by the item's own id.
journal_of-id : (id : String) (s : Store) (j : Journal) → journal_of id s ≡ some j → j.id ≡ id
journal_of-id id s j e =
    (eq_iff j.id id).0 (find-test (λ (k : Journal). str_eq k.id id) s.journals j e)

-- What a creation leaves: the journal item that it read, and its row before the others.
created-finds :
    (o : Outside) (c : Call) (p : IncidentRequest) (s : Store) (x : Prepared) (i : Incident)
    → ((u : Store) → Grows u (c.others u))
    → check_incident o c.now p s ≡ ok x
    → (journal_of p.trigger_journal_item_id (added i (c.others (protect o x s).1)) ≡ some x.journal)
      × (journal_of x.journal.id (added i (c.others (protect o x s).1)) ≡ some x.journal)
created-finds o c p s x i grown checked =
    let id = p.trigger_journal_item_id in
    let read = (check_incident-eq-ok o c.now p s x checked).1 in
    let protected = (protect-Grows o s x).journals id x.journal read in
    let kept = (grown (protect o x s).1).journals id x.journal protected in
    (
      kept,
      ap (λ k. journal_of k (c.others (protect o x s).1)) (journal_of-id id s x.journal read)
          ∙ kept,
    )

-- An incident that is created passes its verification when the call returns, whatever run of other
-- sessions comes before its commit, if no receipt or resolution bears its id.
pub materialize-verify :
    (o : Outside) (c : Call) (p : IncidentRequest) (i : Incident) (s : Store)
    → ((u : Store) → Run o u (c.others u))
    → (materialize o c p s).0 ≡ ok (i, false)
    → ack_for i.id (materialize o c p s).1 ≡ none
    → resolution_for i.id (materialize o c p s).1 ≡ none
    → passed (verify o i (materialize o c p s).1) ≡ true
materialize-verify o c p i s runs created unseen unresolved =
    let (x, checked, (state, _, same, stored)) = materialize-Created o c s p i created in
    let t = (materialize o c p s).1 in
    let item = new_incident o c x (key_of o c s x) (fingerprint_of o c s x) state in
    let same_id : i.id ≡ c.new_id = ap (λ (j : Incident). j.id) same in
    let found_journal : journal_of x.journal.id t ≡ some x.journal =
      ap (journal_of x.journal.id) stored
      ∙ (created-finds o c p s x i (λ u. Run-Grows (runs u)) checked).1 in
    let passes =
      verify-new o c x state t (check_incident-eq-ok o c.now p s x checked).0 found_journal
        (ap (λ k. ack_for k t) (sym same_id) ∙ unseen)
        (ap (λ k. resolution_for k t) (sym same_id) ∙ unresolved) in
    subst (λ j. passed (verify o j t) ≡ true) (sym same) passes

-- A request reads of the store only its journal item.
check_incident-congr :
    (o : Outside) (now : ℕ) (p : IncidentRequest) (s t : Store)
    → journal_of p.trigger_journal_item_id t ≡ journal_of p.trigger_journal_item_id s
    → check_incident o now p t ≡ check_incident o now p s
unfolding check_incident
check_incident-congr o now p s t e = ap (check_request o now p) e

find-first :
    {A : Type 0} (test : A → Bool) (a : A) (rows : List A)
    → test a ≡ true
    → find test (a ∷ rows) ≡ some a
unfolding find
find-first test a rows h = rw h refl

-- A request whose incident is there with its fingerprint reuses it.
materialize-reuses :
    (o : Outside) (c : Call) (p : IncidentRequest) (x : Prepared) (i : Incident) (t : Store)
    → check_incident o c.now p t ≡ ok x
    → incident_of (key_of o c t x) t ≡ some i
    → i.fingerprint ≡ fingerprint_of o c t x
    → materialize o c p t ≡ (ok (i, true), t)
unfolding materialize settle_incident
materialize-reuses o c p x i t checked there print = rw (
  checked,
  there,
  (eq_iff i.fingerprint (fingerprint_of o c t x)).1 print,
  materialize,
  settle_incident,
)

-- The same request at the same time as one that created an incident answers with that incident, as
-- reused, and leaves the store as it is, whatever id and other sessions it meets.
pub materialize-again :
    (o : Outside) (c c' : Call) (p : IncidentRequest) (i : Incident) (s : Store)
    → ((u : Store) → Run o u (c.others u))
    → (materialize o c p s).0 ≡ ok (i, false)
    → c'.now ≡ c.now
    → materialize o c' p (materialize o c p s).1 ≡ (ok (i, true), (materialize o c p s).1)
materialize-again o c c' p i s runs created same_time =
    let (x, checked, (state, _, same, stored)) = materialize-Created o c s p i created in
    let t = (materialize o c p s).1 in
    let key = key_of o c s x in
    let (read, _) = created-finds o c p s x i (λ u. Run-Grows (runs u)) checked in
    let again : check_incident o c'.now p t ≡ ok x =
      ap (λ now. check_incident o now p t) same_time
      ∙ check_incident-congr o c.now p s t (
          ap (journal_of p.trigger_journal_item_id) stored
          ∙ read
          ∙ sym (check_incident-eq-ok o c.now p s x checked).1)
      ∙ checked in
    let own_key : i.incident_key ≡ key = ap (λ (j : Incident). j.incident_key) same in
    let own_print : i.fingerprint ≡ fingerprint_of o c s x =
      ap (λ (j : Incident). j.fingerprint) same in
    let there : incident_of key t ≡ some i =
      ap (incident_of key) stored
      ∙ find-first (λ (j : Incident). str_eq j.incident_key key) i
          (c.others (protect o x s).1).incidents ((eq_iff i.incident_key key).1 own_key) in
    materialize-reuses o c' p x i t again there own_print
