-- ===== src/Governance/Block.antt =====
-- What the incident protocol guarantees at the moment of a call.
use arkana.Base.{
  ◌≡◌, refl, sym, ap, ◌∙◌, subst, ◌⊎◌, Bool, true, false, not, ◌&&◌, Option, none, some, List, [],
  ◌∷◌, ok, raised, String, str_eq, eq_iff, Bool-cases, Option-cases, Result-cases, inl, inr, any_of,
  >>=-eq-ok, ok-injective, get, string_key, ℕ, leb, length, codes, all_of,
}
use arkana.Governance.{
  Status, waiting, acknowledged, entries_blocked, other, Publication, Incident, Store, Outside,
  find, EntryState, publication_of, incident_of, ack_for,
}
use arkana.Governance.Policy.{policy, subject_of}
use arkana.Governance.Calls.{Call, winner}
use arkana.Governance.Incidents.{
  Prepared, IncidentRequest, put_publication, blocked_by, install_block, block_at, block_entries,
  protect_at, protect, is_code, entry_required, text_of, identity_of, evidence_of, materialize,
  settle_incident, create_incident, commit_incident, check_incident, new_incident, clashes_incident,
}
use arkana.Governance.Resolve.{RecoveryRequest, Recovery, check_resolution, resolve}
use arkana.Governance.Runs.{Run, Run-IsBlocked}
use arkana.Governance.Growth.{IsBlocked}
use arkana.Governance.Growth.Operations.{check_resolution-eq-ok}

-- A row in the place of one's own is a reuse.
winner-reused :
    {A : Type 0} (w : Option A) (fingerprint_of : A → String) (fingerprint message : String) (a : A)
    → winner w fingerprint_of fingerprint message ≡ ok (a, false)
    → ⊥
winner-reused none fingerprint_of fingerprint message a e = cc
winner-reused (some w) fingerprint_of fingerprint message a e =
    elim (Bool-cases (str_eq (fingerprint_of w) fingerprint)) [
      | inl same ↦ cc (rw same at e)
      | inr differ ↦ cc (rw differ at e)
    ]

find-put_publication :
    (p : Publication) (rows : List Publication) (q : Publication)
    → find (λ (r : Publication). str_eq r.id p.id) rows ≡ some q
    → find (λ (r : Publication). str_eq r.id p.id) (put_publication p rows) ≡ some p
unfolding find put_publication
find-put_publication p [] q e = cc
find-put_publication p (r ∷ rows) q e = elim (Bool-cases (str_eq r.id p.id)) [
  | inl here ↦ rw here (rw ((eq_iff p.id p.id).1 refl) refl)
  | inr there ↦ rw there (rw there (find-put_publication p rows q (rw there at e)))
]

pub find-test :
    {A : Type 0} (test : A → Bool) (rows : List A) (a : A) → find test rows ≡ some a → test a ≡ true
unfolding find
find-test test [] a e = cc
find-test test (b ∷ rows) a e = elim (Bool-cases (test b)) [
  | inl here ↦
      let same : some b ≡ some a = rw here at e in subst (λ x. test x ≡ true) (cc same) here
  | inr there ↦ find-test test rows a (rw there at e)
]

check_resolution-recoverable :
    (o : Outside) (now : ℕ) (i : Incident) (p : RecoveryRequest) (s : Store) (x : Recovery)
    → check_resolution o now i p s ≡ ok x
    → i.reason_code ≡ "STRATEGY_RETIRED"
    → ⊥
unfolding policy get
check_resolution-recoverable o now i p s x e retired =
    let (r, listed, recoverable, _) = check_resolution-eq-ok o now i p s x e in
    let own : get "STRATEGY_RETIRED" policy ≡ some r =
      ap (λ k. get k policy) (sym retired) ∙ listed in
    cc (own, recoverable)

module _ (o : Outside) (s : Store) where
  install_block-IsBlocked :
      (p : Publication) (reason : String) (now : ℕ) (r : Publication × Bool)
      → publication_of p.id s ≡ some p
      → (install_block o p reason now true s).0 ≡ ok r
      → IsBlocked p.id (install_block o p reason now true s).1
  unfolding install_block
  install_block-IsBlocked p reason now r there e = elim (Bool-cases (o.install p reason now)) [
    | inr failed ↦ cc (rw failed at e)
    | inl done ↦
        let p' = blocked_by p reason now true in
        rw done (p', find-put_publication p' s.publications p there, refl)
  ]

  block_at-IsBlocked :
      (status : Status) (p : Publication) (reason : String) (now : ℕ) (r : Publication × Bool)
      → p.status ≡ status
      → publication_of p.id s ≡ some p
      → (block_at status o p reason now true s).0 ≡ ok r
      → IsBlocked p.id (block_at status o p reason now true s).1
  unfolding block_at
  block_at-IsBlocked entries_blocked p reason now r h there e = (p, there, h)
  block_at-IsBlocked other p reason now r h there e = cc
  block_at-IsBlocked waiting p reason now r h there e =
      install_block-IsBlocked p reason now r there e
  block_at-IsBlocked acknowledged p reason now r h there e =
      install_block-IsBlocked p reason now r there e

  block_entries-IsBlocked :
      (p : Publication) (reason : String) (now : ℕ) (r : Publication × Bool)
      → publication_of p.id s ≡ some p
      → (block_entries o p "" reason now true s).0 ≡ ok r
      → IsBlocked p.id (block_entries o p "" reason now true s).1
  unfolding block_entries
  block_entries-IsBlocked p reason now r there e =
      let count = length (codes reason) in
      let odd = not (leb 1 count && leb count 96 && all_of is_code (codes reason)) in
      elim (Bool-cases odd) [
        | inl odd_reason ↦ cc (rw odd_reason at e)
        | inr plain ↦
            rw plain (block_at-IsBlocked p.status p reason now r refl there (rw plain at e))
      ]

  protect_at-IsBlocked :
      (status : Status) (x : Prepared) (p : Publication) (state : EntryState)
      → p.status ≡ status
      → publication_of p.id s ≡ some p
      → (protect_at status o x p s).0 ≡ ok state
      → IsBlocked p.id (protect_at status o x p s).1
  unfolding protect_at
  protect_at-IsBlocked entries_blocked x p state h there e = (p, there, h)
  protect_at-IsBlocked other x p state h there e = cc
  protect_at-IsBlocked waiting x p state h there e =
      let (r, blocked, _) =
        >>=-eq-ok (block_entries o p "" x.reason_code x.detected true s).0 _ e in
      block_entries-IsBlocked p x.reason_code x.detected r there blocked
  protect_at-IsBlocked acknowledged x p state h there e =
      let (r, blocked, _) =
        >>=-eq-ok (block_entries o p "" x.reason_code x.detected true s).0 _ e in
      block_entries-IsBlocked p x.reason_code x.detected r there blocked

  protect-IsBlocked :
      (x : Prepared) (state : EntryState)
      → entry_required x ≡ true
      → (protect o x s).0 ≡ ok state
      → IsBlocked (text_of x.journal.publication_id) (protect o x s).1
  unfolding protect
  protect-IsBlocked x state needed e =
      let id = text_of x.journal.publication_id in
      elim (Option-cases (publication_of id s)) [
        | inl missing ↦ cc (rw (needed, missing, protect) at e)
        | inr (p, there) ↦
            let same =
              (eq_iff p.id id).0
                (find-test (λ (q : Publication). str_eq q.id id) s.publications p there) in
            let there' : publication_of p.id s ≡ some p =
              ap (λ k. publication_of k s) same ∙ there in
            let done : (protect_at p.status o x p s).0 ≡ ok state =
              rw (needed, there, protect) at e in
            let kept = protect_at-IsBlocked p.status x p state refl there' done in
            rw (needed, there, protect)
              (subst (λ k. IsBlocked k (protect_at p.status o x p s).1) same kept)
      ]

-- A commit that is not a reuse answers with its own row.
commit_incident-returns :
    (c : Call) (item i : Incident) (s : Store)
    → (commit_incident c item s).0 ≡ ok (i, false)
    → (item ≡ i)
      × ((commit_incident c item s).1
          ≡ record (c.others s) { incidents = item ∷ (c.others s).incidents })
unfolding commit_incident
commit_incident-returns c item i s e =
    let t = c.others s in
    elim (Bool-cases (any_of (λ j. clashes_incident j item) t.incidents)) [
      | inl clash ↦ absurd (
          winner-reused (incident_of item.incident_key t) (λ (j : Incident). j.fingerprint)
            item.fingerprint _ i (rw (clash, commit_incident) at e))
      | inr clear ↦
          let h : ok (item, false) ≡ ok (i, false) = rw (clear, commit_incident) at e in
          (ap (λ q. q.0) (ok-injective h), rw (clear, commit_incident))
    ]

abbrev pub added : Incident → Store → Store
added i t = record t { incidents = i ∷ t.incidents }

module _ (o : Outside) (c : Call) (s : Store) where
  -- What a creation that is no reuse has done.
  abbrev pub Created : Prepared → String → String → Incident → Store → Type 0
  Created x key fingerprint i t =
      (state : EntryState) × ((protect o x s).0 ≡ ok state)
      × (i ≡ new_incident o c x key fingerprint state)
      × (t ≡ added i (c.others (protect o x s).1))

  create_incident-Created :
      (x : Prepared) (key fingerprint : String) (i : Incident)
      → (create_incident o c x key fingerprint s).0 ≡ ok (i, false)
      → Created x key fingerprint i (create_incident o c x key fingerprint s).1
  unfolding create_incident
  create_incident-Created x key fingerprint i e = elim (Result-cases (protect o x s).0) [
    | inr (message, f) ↦ cc (rw (f, create_incident) at e)
    | inl (state, f) ↦
        let item = new_incident o c x key fingerprint state in
        let (same, stored) =
          commit_incident-returns c item i (protect o x s).1 (rw (f, create_incident) at e) in
        (
          state,
          f,
          sym same,
          rw (f, create_incident) (stored ∙ ap (λ j. added j (c.others (protect o x s).1)) same),
        )
  ]

  abbrev pub key_of : Prepared → String
  key_of x = o.hash (identity_of o x.reason_code x.journal (subject_of x.journal) x.detected)

  abbrev pub fingerprint_of : Prepared → String
  fingerprint_of x = o.hash (
      evidence_of o (identity_of o x.reason_code x.journal (subject_of x.journal) x.detected)
        x.journal x.facts)

  settle_incident-Created :
      (x : Prepared) (i : Incident)
      → (settle_incident o c x s).0 ≡ ok (i, false)
      → Created x (key_of x) (fingerprint_of x) i (settle_incident o c x s).1
  unfolding settle_incident
  settle_incident-Created x i e = elim (Option-cases (incident_of (key_of x) s)) [
    | inr (existing, f) ↦ absurd (
        winner-reused (some existing) (λ (j : Incident). j.fingerprint) (fingerprint_of x) _ i
          (rw (f, settle_incident) at e))
    | inl new ↦ elim (Bool-cases (o.verified s x.journal)) [
      | inr refused ↦ cc (rw (new, refused, settle_incident) at e)
      | inl verified ↦
          let made =
            create_incident-Created x (key_of x) (fingerprint_of x) i
              (rw (new, verified, settle_incident) at e) in
          rw (new, verified, settle_incident) made
    ]
  ]

  -- A materialisation that is no reuse has prepared, protected and committed the incident.
  pub materialize-Created :
      (p : IncidentRequest) (i : Incident)
      → (materialize o c p s).0 ≡ ok (i, false)
      → (x : Prepared) × (check_incident o c.now p s ≡ ok x)
        × Created x (key_of x) (fingerprint_of x) i (materialize o c p s).1
  unfolding materialize
  materialize-Created p i e = elim (Result-cases (check_incident o c.now p s)) [
    | inr (message, f) ↦ cc (rw (f, materialize) at e)
    | inl (x, f) ↦
        let made = settle_incident-Created x i (rw (f, materialize) at e) in
        (x, f, rw (f, materialize) made)
  ]

-- An incident that is created, and whose policy asks for it, has the publication of its journal item
-- blocked when the call returns, whatever run of other sessions comes before its commit.
pub materialize-IsBlocked :
    (o : Outside) (c : Call) (p : IncidentRequest) (i : Incident) (s : Store)
    → ((u : Store) → Run o u (c.others u))
    → (materialize o c p s).0 ≡ ok (i, false)
    → i.entry_block_required ≡ true
    → IsBlocked (text_of i.publication_id) (materialize o c p s).1
materialize-IsBlocked o c p i s runs e required =
    let (x, _, (state, protected, same, stored)) = materialize-Created o c s p i e in
    let asked : entry_required x ≡ true =
      ap (λ (j : Incident). j.entry_block_required) (sym same) ∙ required in
    let id = text_of x.journal.publication_id in
    let blocked =
      Run-IsBlocked (runs (protect o x s).1) id (protect-IsBlocked o s x state asked protected) in
    let same_id : id ≡ text_of i.publication_id =
      ap (λ (j : Incident). text_of j.publication_id) (sym same) in
    subst (λ k. IsBlocked k (materialize o c p s).1) same_id (rw stored blocked)

-- An incident with no acknowledgement, or whose reason is `STRATEGY_RETIRED`, is never resolved: the
-- call raises and leaves the store as it is.
pub resolve-refuses :
    (o : Outside) (c : Call) (i : Incident) (p : RecoveryRequest) (s : Store)
    → (ack_for i.id s ≡ none) ⊎ (i.reason_code ≡ "STRATEGY_RETIRED")
    → (message : String) × (resolve o c i p s ≡ (raised message, s))
unfolding resolve
resolve-refuses o c i p s h = elim (Result-cases (check_resolution o c.now i p s)) [
  | inr (message, e) ↦ (message, rw (e, resolve))
  | inl (x, e) ↦ elim h [
    | inl unseen ↦ cc ((check_resolution-eq-ok o c.now i p s x e).3, unseen)
    | inr retired ↦ absurd (check_resolution-recoverable o c.now i p s x e retired)
  ]
]
