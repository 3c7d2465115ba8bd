-- ===== src/Governance/Growth/Blocks.antt =====
-- `block_entries` of generic_mt5_publications.py, as `materialize` of governance_incidents.py calls it,
-- unblocks nothing.
use arkana.Base.{
  ℕ, ◌≡◌, refl, ap, ◌∙◌, Bool, true, false, not, ◌&&◌, some, List, [], ◌∷◌, String, str_eq, eq_iff,
  Bool-cases, inl, inr, Option-cases, string_key, leb, length, codes, all_of,
}
use arkana.Governance.{
  Status, waiting, acknowledged, entries_blocked, other, Publication, Store, find, publication_of,
  Outside,
}
use arkana.Governance.Incidents.{
  Prepared, put_publication, blocked_by, install_block, block_at, block_entries, protect_at,
  protect, is_code, entry_required, text_of,
}
use arkana.Governance.Growth.{Grows, Grows-refl}

-- A publication that is put back blocked leaves the others alone.
put_publication-IsBlocked :
    (p : Publication) (rows : List Publication) (id : String) (q : Publication)
    → p.status ≡ entries_blocked
    → find (λ (r : Publication). str_eq r.id id) rows ≡ some q
    → q.status ≡ entries_blocked
    → (q' : Publication) × (find (λ (r : Publication). str_eq r.id id) (put_publication p rows)
        ≡ some q')
      × (q'.status ≡ entries_blocked)
unfolding find put_publication
put_publication-IsBlocked p [] id q h e b = cc
put_publication-IsBlocked p (r ∷ rows) id q h e b = elim (Bool-cases (str_eq r.id p.id)) [
  | inl put ↦ elim (Bool-cases (str_eq p.id id)) [
    | inl here ↦ rw put (p, rw here, h)
    | inr there ↦
        let same = (eq_iff r.id p.id).0 put in
        let away : str_eq r.id id ≡ false = ap (λ i. str_eq i id) same ∙ there in
        rw put (q, rw there (rw away at e), b)
  ]
  | inr kept ↦ elim (Bool-cases (str_eq r.id id)) [
    | inl here ↦ rw kept (q, rw here (rw here at e), b)
    | inr there ↦
        let (q', f, k) = put_publication-IsBlocked p rows id q h (rw there at e) b in
        rw kept (q', rw there f, k)
  ]
]

module _ (o : Outside) (s : Store) where
  install_block-Grows :
      (p : Publication) (reason : String) (now : ℕ) (by_system : Bool)
      → Grows s (install_block o p reason now by_system s).1
  unfolding install_block
  install_block-Grows p reason now by_system = elim (Bool-cases (o.install p reason now)) [
    | inr failed ↦ rw failed (Grows-refl s)
    | inl done ↦ rw done (record {
      journals = λ id j e. e;
      incidents = λ key i e. e;
      acknowledgements = λ id a e. e;
      resolutions = λ id r e. e;
      blocks = λ id (q, e, b).
          put_publication-IsBlocked (blocked_by p reason now by_system) s.publications id q refl e
            b;
      chained = λ id r e. inl e;
    })
  ]

  block_at-Grows :
      (status : Status) (p : Publication) (reason : String) (now : ℕ) (by_system : Bool)
      → Grows s (block_at status o p reason now by_system s).1
  unfolding block_at
  block_at-Grows entries_blocked p reason now by_system = Grows-refl s
  block_at-Grows other p reason now by_system = Grows-refl s
  block_at-Grows waiting p reason now by_system = install_block-Grows p reason now by_system
  block_at-Grows acknowledged p reason now by_system = install_block-Grows p reason now by_system

  block_entries-Grows :
      (p : Publication) (authorization reason : String) (now : ℕ) (by_system : Bool)
      → Grows s (block_entries o p authorization reason now by_system s).1
  unfolding block_entries
  block_entries-Grows p authorization reason now by_system =
      let unauthorized =
        not by_system && not (str_eq authorization "BLOCK_GENERIC_DEMO_ENTRIES_V1") in
      let count = length (codes reason) in
      let odd = not (leb 1 count && leb count 96 && all_of is_code (codes reason)) in
      elim (Bool-cases unauthorized) [
        | inl no_authority ↦ rw no_authority (Grows-refl s)
        | inr authority ↦ elim (Bool-cases odd) [
          | inl odd_reason ↦ rw (authority, odd_reason) (Grows-refl s)
          | inr plain ↦ rw (authority, plain) (block_at-Grows p.status p reason now by_system)
        ]
      ]

  protect_at-Grows :
      (status : Status) (x : Prepared) (p : Publication) → Grows s (protect_at status o x p s).1
  unfolding protect_at
  protect_at-Grows entries_blocked x p = Grows-refl s
  protect_at-Grows other x p = Grows-refl s
  protect_at-Grows waiting x p = block_entries-Grows p "" x.reason_code x.detected true
  protect_at-Grows acknowledged x p = block_entries-Grows p "" x.reason_code x.detected true

  pub protect-Grows : (x : Prepared) → Grows s (protect o x s).1
  unfolding protect
  protect-Grows x = elim (Bool-cases (entry_required x)) [
    | inr needless ↦ rw needless (Grows-refl s)
    | inl needed ↦ elim (Option-cases (publication_of (text_of x.journal.publication_id) s)) [
      | inl missing ↦ rw (needed, missing) (Grows-refl s)
      | inr (p, there) ↦ rw (needed, there) (protect_at-Grows p.status x p)
    ]
  ]
