-- ===== src/MarketData/Rounds.antt =====
-- One round of the merge: it takes a row from each popped stream, all of one timestamp.
use arkana.Base.{
  ℕ, zero, suc, ◌+◌, ◌≤◌, ◌≡◌, refl, ◌⊎◌, ◌∙◌, List, [], ◌∷◌, ◌++◌, String, ltb, ◌==◌, length,
  if◌then◌else◌, All, codes, codes_le, ==_iff, Bool-cases, inl, inr, arith,
}
use arkana.MarketData.{Head, least, same_of, greatest_path, pushed, advance, chosen_of, total}

module _ {B : Type 0} (time : B → ℕ) where
  -- The merge with no batches: one row for each round.
  unfoldable pub merged : ℕ → List (Head B) → List B
  merged zero heads = []
  merged (suc fuel) [] = []
  merged (suc fuel) (h ∷ heads) =
      let t = least time (time h.row) heads in
      chosen_of time h (same_of time t (h ∷ heads)) ∷ merged fuel (advance time t (h ∷ heads))

  total-append : (a b : List (Head B)) → total (a ++ b) ≡ total a + total b
  unfolding total
  total-append [] b = omega arith
  total-append (h ∷ a) b = omega (arith, total-append a b)

  total-pushed : (path : String) (rest : List B) → total (pushed time path rest) ≡ length rest
  unfolding total pushed
  total-pushed path [] = refl
  total-pushed path (b ∷ rest) = omega arith

  -- Each popped entry takes one row from what is to come.
  pub total-advance :
      (t : ℕ) (heads : List (Head B))
      → total (advance time t heads) + length (same_of time t heads) ≡ total heads
  unfolding total advance same_of
  total-advance t [] = refl
  total-advance t (h ∷ heads) = elim (Bool-cases (time h.row == t)) [
    | inl popped ↦ rw popped (
        omega (
          arith,
          total-append (pushed time h.path h.rest) (advance time t heads),
          total-pushed h.path h.rest,
          total-advance t heads,
        ))
    | inr kept ↦ rw kept (omega (arith, total-advance t heads))
  ]

  -- The least timestamp is the first one, or an entry has it.
  least-attained :
      (t : ℕ) (heads : List (Head B))
      → (least time t heads ≡ t) ⊎ (1 ≤ length (same_of time (least time t heads) heads))
  unfolding least same_of
  least-attained t [] = inl refl
  least-attained t (h ∷ heads) =
      let u = if ltb (time h.row) t then time h.row else t in
      elim (Bool-cases (time h.row == least time u heads)) [
        | inl here ↦ inr (rw here (omega arith))
        | inr there ↦ elim (least-attained u heads) [
          | inr later ↦ inr (rw there later)
          | inl same ↦ elim (Bool-cases (ltb (time h.row) t)) [
            | inr other ↦ inl (same ∙ rw other refl)
            | inl below ↦ absurd (ground (arith, same))
          ]
        ]
      ]

  pub same_of-least :
      (h : Head B) (heads : List (Head B))
      → 1 ≤ length (same_of time (least time (time h.row) heads) (h ∷ heads))
  unfolding same_of
  same_of-least h heads =
      let t = least time (time h.row) heads in
      elim (Bool-cases (time h.row == t)) [
        | inl here ↦ rw here (omega arith)
        | inr there ↦ elim (least-attained (time h.row) heads) [
          | inr later ↦ rw there later
          | inl same ↦ absurd (ground (arith, same))
        ]
      ]

  same_of-time :
      (t : ℕ) (heads : List (Head B)) → All (λ (h : Head B). time h.row ≡ t) (same_of time t heads)
  unfolding same_of
  same_of-time t [] = tt
  same_of-time t (h ∷ heads) = elim (Bool-cases (time h.row == t)) [
    | inl here ↦ rw here ((==_iff (time h.row) t).0 here, same_of-time t heads)
    | inr there ↦ rw there (same_of-time t heads)
  ]

  greatest_path-time :
      (t : ℕ) (best : Head B) (heads : List (Head B))
      → time best.row ≡ t
      → All (λ (h : Head B). time h.row ≡ t) heads
      → time (greatest_path time best heads).row ≡ t
  unfolding greatest_path
  greatest_path-time t best [] e h = e
  greatest_path-time t best (k ∷ heads) e (h, hs) =
      let less = codes_le (codes k.path) (codes best.path) in
      let next : time (if less then best else k).row ≡ t = elim (Bool-cases less) [
        | inl yes_less ↦ rw yes_less e
        | inr more ↦ rw more h
      ] in
      greatest_path-time t (if less then best else k) heads next hs

  chosen_of-time :
      (t : ℕ) (h : Head B) (same : List (Head B))
      → 1 ≤ length same
      → All (λ (k : Head B). time k.row ≡ t) same
      → time (chosen_of time h same) ≡ t
  unfolding chosen_of
  chosen_of-time t h [] some_popped e = absurd (omega (arith, some_popped))
  chosen_of-time t h (k ∷ same) some_popped (e, es) = greatest_path-time t k same e es

  -- The row of a round has the round's timestamp.
  pub round-time :
      (k : Head B) (heads : List (Head B))
      → let t = least time (time k.row) heads in
        time (chosen_of time k (same_of time t (k ∷ heads))) ≡ t
  round-time k heads =
      let t = least time (time k.row) heads in
      chosen_of-time t k (same_of time t (k ∷ heads)) (same_of-least k heads)
        (same_of-time t (k ∷ heads))
