-- ===== src/Gate/Merged.antt =====
-- The buckets of two splits merged: one for each name, in the order of the names.
use arkana.Base.{
  ◌≡◌, refl, sym, ap, subst, ◌∙◌, Bool, true, false, List, [], ◌∷◌, map, Number, nought, String,
  Dict, get, put, string_key, str_eq, eq_iff, sort_texts, insert_text, codes, codes_le,
  if◌then◌else◌, All, Bool-cases, inl, inr,
}
use arkana.Gate.{value_or_nought, add_to, merge_into, insert_bucket, sort_buckets, merge_buckets}

-- A name is added to the names that are there, unless it is one of them.
abbrev pub add_name : String → List String → List String
add_name k [] = k ∷ []
add_name k (j ∷ names) = if str_eq j k then j ∷ names else j ∷ add_name k names

abbrev IsAbsent : String → List String → Type 0
IsAbsent k names = All (λ j. str_eq k j ≡ false) names

abbrev IsDistinct : List String → Type 0
IsDistinct [] = Unit
IsDistinct (j ∷ names) = IsAbsent j names × IsDistinct names

str_eq_sym : (a b : String) {c : Bool} → str_eq a b ≡ c → str_eq b a ≡ c
str_eq_sym a b {c = true} e = (eq_iff b a).1 (sym ((eq_iff a b).0 e))
str_eq_sym a b {c = false} e = elim (Bool-cases (str_eq b a)) [
  | inl same ↦ let both = (eq_iff a b).1 (sym ((eq_iff b a).0 same)) in cc (both, e)
  | inr other ↦ other
]

IsAbsent-add_name :
    (j k : String) (names : List String)
    → str_eq j k ≡ false
    → IsAbsent j names
    → IsAbsent j (add_name k names)
IsAbsent-add_name j k [] e h = (e, tt)
IsAbsent-add_name j k (i ∷ names) e h = elim (Bool-cases (str_eq i k)) [
  | inl there ↦ rw there h
  | inr other ↦ rw other (h.0, IsAbsent-add_name j k names e h.1)
]

IsDistinct-add_name :
    (k : String) (names : List String) → IsDistinct names → IsDistinct (add_name k names)
IsDistinct-add_name k [] h = (tt, tt)
IsDistinct-add_name k (j ∷ names) h = elim (Bool-cases (str_eq j k)) [
  | inl there ↦ rw there h
  | inr other ↦ rw other (IsAbsent-add_name j k names other h.0, IsDistinct-add_name k names h.1)
]

add_name-IsAbsent :
    (b k : String) (names : List String)
    → IsAbsent b (add_name k names)
    → IsAbsent b names × (str_eq k b ≡ false)
add_name-IsAbsent b k [] h = (tt, str_eq_sym b k h.0)
add_name-IsAbsent b k (j ∷ names) h = elim (Bool-cases (str_eq j k)) [
  | inl there ↦
      let h' : IsAbsent b (j ∷ names) = rw there at h in
      (h', ap (λ i. str_eq i b) (sym ((eq_iff j k).0 there)) ∙ str_eq_sym b j h'.0)
  | inr other ↦
      let h' : IsAbsent b (j ∷ add_name k names) = rw other at h in
      let (rest, differs) = add_name-IsAbsent b k names h'.1 in ((h'.0, rest), differs)
]

module _ {A : Type 0} ⦃n : Number A⦄ where
  -- What the buckets of a name add to `a`, one after the other.
  abbrev pub earned : String → Dict String A → A → A
  earned b [] a = a
  earned b ((k, pnl) ∷ d) a = earned b d (if str_eq k b then n.add a pnl else a)

  abbrev pub add_names : Dict String A → List String → List String
  add_names [] names = names
  add_names ((k, pnl) ∷ d) names = add_names d (add_name k names)

  abbrev pub table : (String → A) → List String → Dict String A
  table g [] = []
  table g (b ∷ names) = (b, g b) ∷ table g names

  table-congr :
      (g h : String → A) (names : List String)
      → ((b : String) → g b ≡ h b)
      → table g names ≡ table h names
  table-congr g h [] e = refl
  table-congr g h (b ∷ names) e = rw (e b) (ap (λ t. (b, h b) ∷ t) (table-congr g h names e))

  abbrev set_at : String → A → (String → A) → String → A
  set_at k v g b = if str_eq k b then v else g b

  table-IsAbsent :
      (k : String) (v : A) (g : String → A) (names : List String)
      → IsAbsent k names
      → table g names ≡ table (set_at k v g) names
  table-IsAbsent k v g [] h = refl
  table-IsAbsent k v g (b ∷ names) h =
      rw (h.0) (ap (λ t. (b, g b) ∷ t) (table-IsAbsent k v g names h.1))

  put-table :
      (k : String) (v : A) (g : String → A) (names : List String)
      → IsDistinct names
      → put k v (table g names) ≡ table (set_at k v g) (add_name k names)
  unfolding put
  put-table k v g [] h = let here = (eq_iff k k).1 refl in rw here refl
  put-table k v g (j ∷ names) h = elim (Bool-cases (str_eq j k)) [
    | inl there ↦
        let same = (eq_iff j k).0 there in
        let k_absent : IsAbsent k names = subst (λ i. IsAbsent i names) same h.0 in
        rw (there, str_eq_sym j k there)
          (ap (λ t. (j, v) ∷ t) (table-IsAbsent k v g names k_absent))
    | inr other ↦
        rw (other, str_eq_sym j k other) (ap (λ t. (j, g j) ∷ t) (put-table k v g names h.1))
  ]

  get-table :
      (k : String) (g : String → A) (names : List String)
      → (IsAbsent k names → g k ≡ nought)
      → value_or_nought (get k (table g names)) ≡ g k
  unfolding get
  get-table k g [] h = sym (h tt)
  get-table k g (j ∷ names) h = elim (Bool-cases (str_eq j k)) [
    | inl there ↦ rw there (ap g ((eq_iff j k).0 there))
    | inr other ↦ rw other (get-table k g names (λ absent. h (str_eq_sym j k other, absent)))
  ]

  step-set_at :
      (k : String) (pnl : A) (g : String → A) (w : A) (b : String)
      → w ≡ g k
      → set_at k (n.add w pnl) g b ≡ (if str_eq k b then n.add (g b) pnl else g b)
  step-set_at k pnl g w b e = elim (Bool-cases (str_eq k b)) [
    | inl here ↦ rw here (ap (λ a. n.add a pnl) (e ∙ ap g ((eq_iff k b).0 here)))
    | inr other ↦ rw other refl
  ]

  abbrev IsZeroOff : (String → A) → List String → Type 0
  IsZeroOff g names = (b : String) → IsAbsent b names → g b ≡ nought

  abbrev with_pnl : String → A → (String → A) → String → A
  with_pnl k pnl g b = if str_eq k b then n.add (g b) pnl else g b

  with_pnl-IsZeroOff :
      (k : String) (pnl : A) (g : String → A) (names : List String)
      → IsZeroOff g names
      → IsZeroOff (with_pnl k pnl g) (add_name k names)
  with_pnl-IsZeroOff k pnl g names z b absent =
      let (rest, differs) = add_name-IsAbsent b k names absent in rw differs (z b rest)

  earned-IsZeroOff :
      (d : Dict String A) (g : String → A) (names : List String)
      → IsZeroOff g names
      → IsZeroOff (λ b. earned b d (g b)) (add_names d names)
  earned-IsZeroOff [] g names z = z
  earned-IsZeroOff ((k, pnl) ∷ d) g names z =
      earned-IsZeroOff d (with_pnl k pnl g) (add_name k names) (with_pnl-IsZeroOff k pnl g names z)

  -- After merging `d`, each name has what it had and what `d` adds to it.
  merge_into-table :
      (d : Dict String A) (g : String → A) (names : List String)
      → IsDistinct names
      → IsZeroOff g names
      → merge_into d (table g names) ≡ table (λ b. earned b d (g b)) (add_names d names)
  unfolding merge_into
  merge_into-table [] g names h z = refl
  merge_into-table ((k, pnl) ∷ d) g names h z =
      let w = value_or_nought (get k (table g names)) in
      let found = get-table k g names (z k) in
      let g' = with_pnl k pnl g in
      let added : add_to k pnl (table g names) ≡ table g' (add_name k names) =
        put-table k (n.add w pnl) g names h
        ∙ table-congr _ g' (add_name k names) (λ b. step-set_at k pnl g w b found) in
      ap (merge_into d) added
      ∙ merge_into-table d g' (add_name k names) (IsDistinct-add_name k names h)
          (with_pnl-IsZeroOff k pnl g names z)

  insert_bucket-table :
      (g : String → A) (b : String) (names : List String)
      → insert_bucket (b, g b) (table g names) ≡ table g (insert_text b names)
  unfolding insert_bucket
  insert_bucket-table g b [] = refl
  insert_bucket-table g b (j ∷ names) = elim (Bool-cases (codes_le (codes b) (codes j))) [
    | inl first ↦ rw (first, insert_bucket, insert_text) refl
    | inr later ↦
        rw (later, insert_bucket, insert_text)
          (ap (λ t. (j, g j) ∷ t) (insert_bucket-table g b names))
  ]

  sort_buckets-table :
      (g : String → A) (names : List String)
      → sort_buckets (table g names) ≡ table g (sort_texts names)
  unfolding sort_buckets sort_texts
  sort_buckets-table g [] = refl
  sort_buckets-table g (b ∷ names) =
      ap (insert_bucket (b, g b)) (sort_buckets-table g names)
      ∙ insert_bucket-table g b (sort_texts names)

  IsDistinct-add_names :
      (d : Dict String A) (names : List String) → IsDistinct names → IsDistinct (add_names d names)
  IsDistinct-add_names [] names h = h
  IsDistinct-add_names ((k, pnl) ∷ d) names h =
      IsDistinct-add_names d (add_name k names) (IsDistinct-add_name k names h)

  -- The names of either split in order, without repetition, and for each the sum of what it earned in
  -- the holdout and then in the final split, rounded.
  abbrev pub merged_names : Dict String A → Dict String A → List String
  merged_names holdout final_oos = sort_texts (add_names final_oos (add_names holdout []))

  abbrev pub merged_pnl : Dict String A → Dict String A → String → A
  merged_pnl holdout final_oos b = n.round 6 (earned b final_oos (earned b holdout nought))

  round-table :
      (g : String → A) (names : List String)
      → map (λ (item : String × A). (item.0, n.round 6 item.1)) (table g names)
        ≡ table (λ b. n.round 6 (g b)) names
  round-table g [] = refl
  round-table g (b ∷ names) = ap (λ t. (b, n.round 6 (g b)) ∷ t) (round-table g names)

  values-table :
      (g : String → A) (names : List String)
      → map (λ (item : String × A). item.1) (table g names) ≡ map g names
  values-table g [] = refl
  values-table g (b ∷ names) = ap (λ t. g b ∷ t) (values-table g names)

  -- The values of the merged buckets are those of the merged names, in their order.
  pub values-merge_buckets :
      (holdout final_oos : Dict String A)
      → map (λ (item : String × A). item.1) (merge_buckets holdout final_oos)
        ≡ map (merged_pnl holdout final_oos) (merged_names holdout final_oos)
  unfolding merge_buckets
  values-merge_buckets holdout final_oos =
      let none_yet = λ (b : String). nought in
      let once = λ (b : String). earned b holdout nought in
      let names = add_names holdout [] in
      let first : merge_into holdout [] ≡ table once names =
        merge_into-table holdout none_yet [] tt (λ b absent. refl) in
      let both =
        ap (merge_into final_oos) first
        ∙ merge_into-table final_oos once names (IsDistinct-add_names holdout [] tt)
            (earned-IsZeroOff holdout none_yet [] (λ b absent. refl)) in
      let total = λ (b : String). earned b final_oos (once b) in
      ap
        (λ d.
          map (λ (item : String × A). item.1)
            (map (λ (item : String × A). (item.0, n.round 6 item.1)) (sort_buckets d)))
        both
      ∙ ap
          (λ d.
            map (λ (item : String × A). item.1)
              (map (λ (item : String × A). (item.0, n.round 6 item.1)) d))
          (sort_buckets-table total (add_names final_oos names))
      ∙ ap (map (λ (item : String × A). item.1))
          (round-table total (merged_names holdout final_oos))
      ∙ values-table (merged_pnl holdout final_oos) (merged_names holdout final_oos)
