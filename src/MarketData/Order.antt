-- ===== src/MarketData/Order.antt =====
-- The merge rises in time.
use arkana.Base.{
  ℕ, zero, suc, ◌≤◌, ◌<◌, sym, List, [], ◌∷◌, String, ltb, ◌==◌, if◌then◌else◌, All, All-map,
  All-append, ==_iff, Bool-cases, inl, inr, arith, subst,
}
use arkana.MarketData.{Head, least, pushed, advance}
use arkana.MarketData.Rounds.{merged, round-time}

module _ {B : Type 0} (time : B → ℕ) where
  -- Timestamps that rise from above `t`.
  abbrev pub IsRising : ℕ → List B → Type 0
  IsRising t [] = Unit
  IsRising t (b ∷ rows) = (t < time b) × IsRising (time b) rows

  abbrev pub IsAscending : List B → Type 0
  IsAscending [] = Unit
  IsAscending (b ∷ rows) = IsRising (time b) rows

  abbrev IsAbove : ℕ → Head B → Type 0
  IsAbove t h = IsRising t (h.row ∷ h.rest)

  abbrev pub IsOrdered : Head B → Type 0
  IsOrdered h = IsRising (time h.row) h.rest

  least-le :
      (t : ℕ) (heads : List (Head B))
      → (least time t heads ≤ t) × All (λ (h : Head B). least time t heads ≤ time h.row) heads
  unfolding least
  least-le t [] = (omega arith, tt)
  least-le t (h ∷ heads) =
      let u = if ltb (time h.row) t then time h.row else t in
      let (below, all_below) = least-le u heads in
      (ground (arith, below), (ground (arith, below), all_below))

  IsRising-pushed :
      (path : String) (t : ℕ) (rest : List B)
      → IsRising t rest
      → All (IsAbove t) (pushed time path rest)
  unfolding pushed
  IsRising-pushed path t [] h = tt
  IsRising-pushed path t (b ∷ rest) h = (h, tt)

  advance-IsAbove :
      (t : ℕ) (heads : List (Head B))
      → All (λ (h : Head B). t ≤ time h.row) heads
      → All IsOrdered heads
      → All (IsAbove t) (advance time t heads)
  unfolding advance
  advance-IsAbove t [] h o = tt
  advance-IsAbove t (k ∷ heads) (h, hs) (o, os) = elim (Bool-cases (time k.row == t)) [
    | inl popped ↦ rw popped (
        All-append (IsAbove t) (pushed time k.path k.rest) (advance time t heads)
          (IsRising-pushed k.path t k.rest
            (subst (λ u. IsRising u k.rest) ((==_iff (time k.row) t).0 popped) o))
          (advance-IsAbove t heads hs os))
    | inr kept ↦ rw kept ((ground arith, o), advance-IsAbove t heads hs os)
  ]

  least-above :
      (bound t : ℕ) (heads : List (Head B))
      → bound < t
      → All (IsAbove bound) heads
      → bound < least time t heads
  unfolding least
  least-above bound t [] h a = h
  least-above bound t (k ∷ heads) h (a, as_) =
      least-above bound (if ltb (time k.row) t then time k.row else t) heads (ground (arith, a.0))
        as_

  merged-IsRising :
      (fuel bound : ℕ) (heads : List (Head B))
      → All (IsAbove bound) heads
      → IsRising bound (merged time fuel heads)
  unfolding merged
  merged-IsRising zero bound heads h = tt
  merged-IsRising (suc fuel) bound [] h = tt
  merged-IsRising (suc fuel) bound (k ∷ heads) h =
      let t = least time (time k.row) heads in
      let (first_le, all_le) = least-le (time k.row) heads in
      let ordered = All-map (k ∷ heads) (λ (g : Head B) (a : IsAbove bound g). a.1) h in
      let later =
        merged-IsRising fuel t (advance time t (k ∷ heads))
          (advance-IsAbove t (k ∷ heads) (first_le, all_le) ordered) in
      let at = round-time time k heads in
      (
        subst (λ u. bound < u) (sym at) (least-above bound (time k.row) heads h.0.0 h.1),
        subst (λ u. IsRising u (merged time fuel (advance time t (k ∷ heads)))) (sym at) later,
      )

  pub merged-IsAscending :
      (fuel : ℕ) (heads : List (Head B))
      → All IsOrdered heads
      → IsAscending (merged time fuel heads)
  unfolding merged
  merged-IsAscending zero heads h = tt
  merged-IsAscending (suc fuel) [] h = tt
  merged-IsAscending (suc fuel) (k ∷ heads) h =
      let t = least time (time k.row) heads in
      let later =
        merged-IsRising fuel t (advance time t (k ∷ heads))
          (advance-IsAbove t (k ∷ heads) (least-le (time k.row) heads) h) in
      subst (λ u. IsRising u (merged time fuel (advance time t (k ∷ heads))))
        (sym (round-time time k heads)) later
