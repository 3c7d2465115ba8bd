-- ===== src/MarketData/Coverage.antt =====
-- The merge loses no timestamp.
use arkana.Base.{
  ℕ, zero, suc, ◌<◌, ◌≡◌, sym, ◌⊎◌, ◌∙◌, List, [], ◌∷◌, ◌++◌, String, ◌==◌, All, All-map, ==_iff,
  Bool-cases, inl, inr, arith,
}
use arkana.MarketData.{Head, least, same_of, pushed, advance, chosen_of, total}
use arkana.MarketData.Rounds.{merged, total-advance, same_of-least, round-time}

module _ {B : Type 0} (time : B → ℕ) where
  -- A row with this timestamp is there.
  abbrev pub Has : ℕ → List B → Type 0
  Has t [] = ⊥
  Has t (b ∷ rows) = (time b ≡ t) ⊎ Has t rows

  abbrev pub Covers : List B → Head B → Type 0
  Covers out h = All (λ b. Has (time b) out) (h.row ∷ h.rest)

  pushed-Covers :
      (path : String) (rest out : List B) (later : List (Head B))
      → All (Covers out) (pushed time path rest ++ later)
      → All (λ b. Has (time b) out) rest × All (Covers out) later
  unfolding pushed
  pushed-Covers path [] out later h = (tt, h)
  pushed-Covers path (b ∷ rest) out later (h, hs) = (h, hs)

  advance-Covers :
      (t : ℕ) (c : B) (out : List B) (heads : List (Head B))
      → time c ≡ t
      → All (Covers out) (advance time t heads)
      → All (Covers (c ∷ out)) heads
  unfolding advance
  advance-Covers t c out [] e h = tt
  advance-Covers t c out (k ∷ heads) e h = elim (Bool-cases (time k.row == t)) [
    | inl popped ↦
        let (rest_in, later) =
          pushed-Covers k.path k.rest out (advance time t heads) (rw popped at h) in
        let here : time c ≡ time k.row = e ∙ sym ((==_iff (time k.row) t).0 popped) in
        (
          (inl here, All-map k.rest (λ (b : B) (p : Has (time b) out). inr p) rest_in),
          advance-Covers t c out heads e later,
        )
    | inr kept ↦
        let (own, later) : Covers out k × All (Covers out) (advance time t heads) = rw kept at h in
        (
          All-map (k.row ∷ k.rest) (λ (b : B) (p : Has (time b) out). inr p) own,
          advance-Covers t c out heads e later,
        )
  ]

  pub merged-Covers :
      (fuel : ℕ) (heads : List (Head B))
      → total heads < fuel
      → All (Covers (merged time fuel heads)) heads
  unfolding merged
  merged-Covers zero heads h = absurd (omega (arith, h))
  merged-Covers (suc fuel) [] h = tt
  merged-Covers (suc fuel) (k ∷ heads) h =
      let t = least time (time k.row) heads in
      let fewer : total (advance time t (k ∷ heads)) < fuel =
        omega (arith, h, total-advance time t (k ∷ heads), same_of-least time k heads) in
      advance-Covers t (chosen_of time k (same_of time t (k ∷ heads)))
        (merged time fuel (advance time t (k ∷ heads))) (k ∷ heads) (round-time time k heads)
        (merged-Covers fuel (advance time t (k ∷ heads)) fewer)
