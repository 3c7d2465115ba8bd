-- ===== src/Governance/Growth/Commits.antt =====
-- The commits of governance_incidents.py lose no row.
use arkana.Base.{
  ◌≡◌, refl, sym, ap, ◌∙◌, Bool, true, false, none, some, List, [], ◌∷◌, String, str_eq, eq_iff,
  any_of, Bool-cases, inl, inr, arith, subst, ◌⊎◌, string_key,
}
use arkana.Governance.{Incident, Acknowledgement, Resolution, Store, find}
use arkana.Governance.Calls.{Call}
use arkana.Governance.Incidents.{clashes_incident, commit_incident}
use arkana.Governance.Acknowledge.{clashes_acknowledgement, commit_acknowledgement}
use arkana.Governance.Resolve.{clashes_resolution, commit_resolution}
use arkana.Governance.Growth.{IsChained, Grows, Grows-trans, Grows-IsChained}

module _ {A : Type 0} (key : A → String) (clashes : A → A → Bool) where
  -- A row that no row clashes with has a new key.
  find-unclashed :
      ((a b : A) → str_eq (key a) (key b) ≡ true → clashes a b ≡ true)
      → (item : A) (rows : List A) → any_of (λ a. clashes a item) rows ≡ false
      → find (λ a. str_eq (key a) (key item)) rows ≡ none
  unfolding find
  find-unclashed sees item [] h = refl
  find-unclashed sees item (a ∷ rows) h = elim (Bool-cases (str_eq (key a) (key item))) [
    | inl same ↦ cc (sees a item same, h)
    | inr differ ↦ elim (Bool-cases (clashes a item)) [
      | inl clash ↦ cc (clash, h)
      | inr clear ↦ rw differ (find-unclashed sees item rows (rw clear at h))
    ]
  ]

  -- It hides no row that was found before it came.
  pub find-unclashed_old :
      ((a b : A) → str_eq (key a) (key b) ≡ true → clashes a b ≡ true)
      → (item : A) (rows : List A) → any_of (λ a. clashes a item) rows ≡ false
      → (k : String) (a : A) → find (λ b. str_eq (key b) k) rows ≡ some a
      → find (λ b. str_eq (key b) k) (item ∷ rows) ≡ some a
  unfolding find
  find-unclashed_old sees item rows h k a e = elim (Bool-cases (str_eq (key item) k)) [
    | inr differ ↦ rw differ e
    | inl same ↦
        let new = find-unclashed sees item rows h in
        let moved : find (λ b. str_eq (key b) k) rows ≡ none =
          ap (λ j. find (λ b. str_eq (key b) j) rows) (sym ((eq_iff (key item) k).0 same)) ∙ new in
        cc (moved, e)
  ]

module _ (c : Call) (grown : (u : Store) → Grows u (c.others u)) (s : Store) where
  pub commit_incident-Grows : (item : Incident) → Grows s (commit_incident c item s).1
  unfolding commit_incident
  commit_incident-Grows item =
      let t = c.others s in
      elim (Bool-cases (any_of (λ i. clashes_incident i item) t.incidents)) [
        | inl clash ↦ rw clash (grown s)
        | inr clear ↦ rw clear (
            Grows-trans (grown s) (record {
              journals = λ id j e. e;
              incidents = λ key i e.
                  find-unclashed_old (λ (i : Incident). i.incident_key) clashes_incident
                    (λ a b h. ground arith) item t.incidents clear key i e;
              acknowledgements = λ id a e. e;
              resolutions = λ id r e. e;
              blocks = λ id b. b;
              chained = λ id r e. inl e;
            }))
      ]

  pub commit_acknowledgement-Grows :
      (item : Acknowledgement) → Grows s (commit_acknowledgement c item s).1
  unfolding commit_acknowledgement
  commit_acknowledgement-Grows item =
      let t = c.others s in
      elim (Bool-cases (any_of (λ a. clashes_acknowledgement a item) t.acknowledgements)) [
        | inl clash ↦ rw clash (grown s)
        | inr clear ↦ rw clear (
            Grows-trans (grown s) (record {
              journals = λ id j e. e;
              incidents = λ key i e. e;
              acknowledgements = λ id a e.
                  find-unclashed_old (λ (a : Acknowledgement). a.incident_id)
                    clashes_acknowledgement (λ a b h. ground arith) item t.acknowledgements clear id
                    a e;
              resolutions = λ id r e. e;
              blocks = λ id b. b;
              chained = λ id r e. inl e;
            }))
      ]

  -- The row that is found for an id after a new one came is the new one or an old one.
  found-new :
      (item r : Resolution) (rows : List Resolution) (id : String)
      → find (λ (r : Resolution). str_eq r.incident_id id) (item ∷ rows) ≡ some r
      → ((item.incident_id ≡ id) × (item ≡ r))
        ⊎ (find (λ (r : Resolution). str_eq r.incident_id id) rows ≡ some r)
  unfolding find
  found-new item r rows id e = elim (Bool-cases (str_eq item.incident_id id)) [
    | inl here ↦
        let found : some item ≡ some r = rw here at e in
        inl ((eq_iff item.incident_id id).0 here, cc found)
    | inr there ↦ inr (rw there at e)
  ]

  pub commit_resolution-Grows :
      (item : Resolution)
      → IsChained item.incident_id item s
      → Grows s (commit_resolution c item s).1
  unfolding commit_resolution
  commit_resolution-Grows item chain =
      let t = c.others s in
      let chain_after = Grows-IsChained item.incident_id item (grown s) chain in
      elim (Bool-cases (any_of (λ r. clashes_resolution r item) t.resolutions)) [
        | inl clash ↦ rw clash (grown s)
        | inr clear ↦ rw clear (
            Grows-trans (grown s) (record {
              journals = λ id j e. e;
              incidents = λ key i e. e;
              acknowledgements = λ id a e. e;
              resolutions = λ id r e.
                  find-unclashed_old (λ (r : Resolution). r.incident_id) clashes_resolution
                    (λ a b h. ground arith) item t.resolutions clear id r e;
              blocks = λ id b. b;
              chained = λ id r e. elim (found-new item r t.resolutions id e) [
                | inr old ↦ inl old
                | inl (same_id, same) ↦ inr (
                    subst (λ (q : Resolution). IsChained id q t) same
                      (subst (λ k. IsChained k item t) same_id chain_after))
              ];
            }))
      ]
