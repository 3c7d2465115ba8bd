-- ===== src/LevelTouch/Record/Again.antt =====
-- The second time a request is made on the same dataset.
use arkana.Base.{
  ◌≡◌, refl, sym, ap, subst, ◌∙◌, Bool, true, false, none, some, List, [], ◌∷◌, ◌++◌, Result, ok,
  raised, >>=-eq-ok, ok-injective, String, Number, str_eq, eq_iff, Bool-cases, Option-cases, inl,
  inr,
}
use arkana.LevelTouch.Scan.{readable_bars}
use arkana.LevelTouch.Request.{SpecRequest, Spec, normalize_spec}
use arkana.LevelTouch.Measure.{Formats}
use arkana.LevelTouch.Measure.Whole.{measure_bars}
use arkana.LevelTouch.Record.{
  Answer, to_measure, Dataset, AnySpec, Probe, required, existing, commit, store_fresh, settle,
  new_measurement, measure, asset_for,
}

module _ {A : Type 0} where
  existing-append :
      (fingerprint : String) (p : Probe A) (store : List (Probe A))
      → existing fingerprint store ≡ none
      → p.fingerprint ≡ fingerprint
      → existing fingerprint (store ++ (p ∷ [])) ≡ some p
  unfolding existing
  existing-append fingerprint p [] h e = rw ((eq_iff p.fingerprint fingerprint).1 e) refl
  existing-append fingerprint p (q ∷ store) h e =
      elim (Bool-cases (str_eq q.fingerprint fingerprint)) [
        | inl same ↦ let none_same : some q ≡ none = rw same at h in cc
        | inr other ↦ rw other (existing-append fingerprint p store (rw (other, existing) at h) e)
      ]

  commit-existing :
      (fingerprint : String) (p : Probe A) (store : List (Probe A)) {store' : List (Probe A)}
      → p.fingerprint ≡ fingerprint
      → commit p store ≡ ok store'
      → existing fingerprint store' ≡ some p
  unfolding commit
  commit-existing fingerprint p store same e = elim (Option-cases (existing p.fingerprint store)) [
    | inl fresh ↦
        let stored = ok-injective (rw (fresh, commit) at e) in
        subst (λ s. existing fingerprint s ≡ some p) stored
          (existing-append fingerprint p store (subst (λ k. existing k store ≡ none) same fresh)
            same)
    | inr (q, found) ↦ let refused : raised "IntegrityError" ≡ ok _ = rw (found, commit) at e in cc
  ]

  -- What a request that has been answered by a new row is answered the next time.
  abbrev AnsweredAgain : Probe A → List (Probe A) → (Bool → Result (Answer A)) → Type 0
  AnsweredAgain p store' again =
      (again false ≡ ok (store', (p, true))) × (again true ≡ raised "IntegrityError")

  store_fresh-commit :
      (store : List (Probe A)) (fresh : Result (Probe A)) {store' : List (Probe A)} {p : Probe A}
      {old : Bool}
      → store_fresh store fresh ≡ ok (store', (p, old))
      → (fresh ≡ ok p) × (commit p store ≡ ok store')
  unfolding store_fresh
  store_fresh-commit store fresh {store'} e =
      let (q, made, e₁) = >>=-eq-ok fresh _ e in
      let (s, stored, e₂) = >>=-eq-ok (commit q store) _ e₁ in
      let same = ok-injective e₂ in
      let same_probe = ap (λ (a : Answer A). a.1.0) same in
      let same_store = ap (λ (a : Answer A). a.0) same in
      (
        made ∙ ap ok same_probe,
        subst (λ x. commit x store ≡ ok store') same_probe (stored ∙ ap ok same_store),
      )

  settle-commit :
      (store : List (Probe A)) (refresh : Bool) (fingerprint : String) (fresh : Result (Probe A))
      {store' : List (Probe A)} {p : Probe A}
      → settle store refresh fingerprint fresh ≡ ok (store', (p, false))
      → (fresh ≡ ok p) × (commit p store ≡ ok store')
  unfolding settle
  settle-commit store true fingerprint fresh e = store_fresh-commit store fresh e
  settle-commit store false fingerprint fresh e = elim (Option-cases (existing fingerprint store)) [
    | inl missing ↦ store_fresh-commit store fresh (rw (missing, settle) at e)
    | inr (q, found) ↦
        let reused = ok-injective (rw (found, settle) at e) in
        let old : true ≡ false = ap (λ (a : Answer A). a.1.1) reused in cc
  ]

  commit-clash :
      (p q : Probe A) (store : List (Probe A))
      → existing p.fingerprint store ≡ some q
      → commit p store ≡ raised "IntegrityError"
  unfolding commit
  commit-clash p q store found = rw (found, commit) refl

  settle-found :
      (store : List (Probe A)) (fingerprint : String) (fresh : Result (Probe A)) (p : Probe A)
      → existing fingerprint store ≡ some p
      → settle store false fingerprint fresh ≡ ok (store, (p, true))
  unfolding settle
  settle-found store fingerprint fresh p found = rw (found, settle) refl

  settle-clash :
      (store : List (Probe A)) (fingerprint : String) (fresh : Result (Probe A)) (p : Probe A)
      → fresh ≡ ok p
      → commit p store ≡ raised "IntegrityError"
      → settle store true fingerprint fresh ≡ raised "IntegrityError"
  unfolding settle store_fresh
  settle-clash store fingerprint fresh p made clash = rw (made, clash) refl

  settle-again :
      (store : List (Probe A)) (refresh : Bool) (fingerprint : String) (fresh : Result (Probe A))
      {store' : List (Probe A)} {p : Probe A}
      → ((q : Probe A) → fresh ≡ ok q → q.fingerprint ≡ fingerprint)
      → settle store refresh fingerprint fresh ≡ ok (store', (p, false))
      → AnsweredAgain p store' (λ again. settle store' again fingerprint fresh)
  settle-again store refresh fingerprint fresh {store'} {p} keyed e =
      let (made, stored) = settle-commit store refresh fingerprint fresh e in
      let same = keyed p made in
      let found = commit-existing fingerprint p store same stored in
      let found_own = subst (λ k. existing k store' ≡ some p) (sym same) found in
      let clash : commit p store' ≡ raised "IntegrityError" = commit-clash p p store' found_own in
      (
        settle-found store' fingerprint fresh p found,
        settle-clash store' fingerprint fresh p made clash,
      )

module _ {A : Type 0} ⦃n : Number A⦄ (f : Formats A)
    (fingerprint : String → AnySpec A → String) where
  new_measurement-keyed :
      (clean : Spec A) (d : Dataset A) (q : Probe A)
      → new_measurement f fingerprint clean d ≡ ok q
      → q.fingerprint ≡ fingerprint d.fingerprint (to_measure clean)
  unfolding new_measurement
  new_measurement-keyed clean d q e =
      let (asset, _, e₁) = >>=-eq-ok (required _ (asset_for clean.timeframe d.bars)) _ e in
      let (bars, _, e₂) =
        >>=-eq-ok (readable_bars asset.row_count asset.chunks clean.coverage) _ e₁ in
      let (result, _, e₃) = >>=-eq-ok (measure_bars f bars clean) _ e₂ in
      sym (ap (λ (p : Probe A). p.fingerprint) (ok-injective e₃))

  -- Where a measurement has been computed and stored, the same request on the same dataset is
  -- answered by the stored row, with nothing computed or stored; and asked for with `refresh`, it
  -- raises the error of the unique fingerprint: a stored measurement cannot be refreshed.
  pub measure-again :
      (store store' : List (Probe A)) (r : SpecRequest A) (d : Dataset A) (refresh : Bool)
      (p : Probe A)
      → measure f fingerprint store r (some d) refresh ≡ ok (store', (p, false))
      → (measure f fingerprint store' r (some d) false ≡ ok (store', (p, true)))
        × (measure f fingerprint store' r (some d) true ≡ raised "IntegrityError")
  unfolding measure
  measure-again store store' r d refresh p e =
      let (clean, accepted, e₁) = >>=-eq-ok (normalize_spec r) _ e in
      let key = fingerprint d.fingerprint (to_measure clean) in
      let again =
        settle-again store refresh key (new_measurement f fingerprint clean d)
          (new_measurement-keyed clean d) e₁ in
      rw accepted again
