-- ===== src/LevelTouch/Outcome.antt =====
-- What `resolve` answers for a timeout depends on that timeout alone, and on the first bar that touches
-- the stop or the target.
use Prim.Native.Nat.{min}
use arkana.Base.{
  ℕ, zero, suc, ◌+◌, ◌-◌, ◌≤◌, ◌≡◌, refl, Bool, Option, none, some, List, [], ◌∷◌, map, ok, ◌⊎◌,
  inl, inr, arith, leb, ltb, ==_iff, drop, length, Number, if◌then◌else◌, Dict, get, put, get-put,
  nat_key, All,
}
use arkana.Market.{Bar}
use arkana.LevelTouch.{
  Verdict, timeout, data_end, Walk, limit_of, maximum, touches, verdict_of, walk, answer, answers,
  resolve,
}

module _ {A : Type 0} ⦃n : Number A⦄ (long : Bool) (stop_price target_price : A) where
  -- How many bars come before the first that touches the stop or the target, and its verdict.
  abbrev first_hit : List (Bar A) → Option (ℕ × Verdict)
  first_hit [] = none
  first_hit (bar ∷ rest) = elim (verdict_of (touches long stop_price target_price bar)) [
    | some v ↦ some (0, v)
    | none ↦ elim (first_hit rest) [ none ↦ none | some (k, v) ↦ some (suc k, v) ]
  ]

  -- The outcome of one case on its own: the first hit within `limit` steps decides it; without one
  -- it is a timeout, unless the bars ran out before.
  abbrev pub case_outcome : List (Bar A) → ℕ → Verdict × ℕ
  case_outcome bars limit = elim (first_hit bars) [
    | some (k, v) ↦ if leb k limit then (v, k) else (timeout, limit)
    | none ↦ if ltb (length bars - 1) limit then (data_end, length bars - 1) else (timeout, limit)
  ]

  abbrev walked_to : ℕ → ℕ → List (Bar A) → Walk
  walked_to rounds step bars = elim (first_hit bars) [
    | some (k, v) ↦
        if ltb k rounds
        then record { decided = some v; decided_after = step + k; walked = step + k }
        else record { decided = none; decided_after = 0; walked = step + rounds - 1 }
    | none ↦ record {
      decided = none;
      decided_after = 0;
      walked = step + min rounds (length bars) - 1;
    }
  ]

  walk_lem :
      (rounds step walked : ℕ) (bars : List (Bar A))
      → walked ≡ step - 1
      → walk long stop_price target_price rounds step walked bars ≡ walked_to rounds step bars
  unfolding walk
  walk_lem zero step walked [] h = ground arith
  walk_lem zero step walked (b ∷ bars) h = ground arith
  walk_lem (suc rounds) step walked [] h = ground arith
  walk_lem (suc rounds) step walked (b ∷ bars) h =
      ground (arith, walk_lem rounds (step + 1) step bars (omega arith))

  answer_lem :
      (longest limit : ℕ) (bars : List (Bar A))
      → limit ≤ longest
      → answer (walked_to (longest + 1) 0 bars) limit ≡ case_outcome bars limit
  unfolding answer
  answer_lem longest limit bars h = ground arith

  module _ (bars : List (Bar A)) (w : Walk) (longest : ℕ)
      (w_lem : (limit : ℕ) → limit ≤ longest → answer w limit ≡ case_outcome bars limit) where
    abbrev Answered : Dict ℕ (Verdict × ℕ) → ℕ → Type 0
    Answered outcome value = get value outcome ≡ some (case_outcome bars (limit_of value))

    abbrev InReach : ℕ → Type 0
    InReach value = limit_of value ≤ longest

    put-Answered :
        (outcome : Dict ℕ (Verdict × ℕ)) (value v : ℕ)
        → InReach value
        → (Answered outcome v) ⊎ (value ≡ v)
        → Answered (put value (answer w (limit_of value)) outcome) v
    put-Answered outcome value v h k =
        rw (get-put value v, w_lem (limit_of value) h) (ground (arith, ==_iff value v))

    answers-keep :
        (values : List ℕ) (outcome : Dict ℕ (Verdict × ℕ)) (v : ℕ)
        → All InReach values
        → Answered outcome v
        → Answered (answers w values outcome) v
    unfolding answers
    answers-keep [] outcome v h k = k
    answers-keep (value ∷ rest) outcome v h k =
        answers-keep rest _ v h.1 (put-Answered outcome value v h.0 (inl k))

    answers-All :
        (values : List ℕ) (outcome : Dict ℕ (Verdict × ℕ))
        → All InReach values
        → All (Answered (answers w values outcome)) values
    unfolding answers
    answers-All [] outcome h = tt
    answers-All (value ∷ rest) outcome h = (
      answers-keep rest _ value h.1 (put-Answered outcome value value h.0 (inr refl)),
      answers-All rest _ h.1,
    )

le-maximum : (a : ℕ) (rest : List ℕ) → a ≤ maximum a rest
unfolding maximum
le-maximum a [] = omega arith
le-maximum a (b ∷ rest) = ground (arith, le-maximum (if ltb a b then b else a) rest)

maximum-All :
    (a : ℕ) (values : List ℕ) → All (λ v. limit_of v ≤ maximum a (map limit_of values)) values
unfolding maximum
maximum-All a [] = tt
maximum-All a (v ∷ values) =
    let b = limit_of v in
    let top = if ltb a b then b else a in
    (ground (arith, le-maximum top (map limit_of values)), maximum-All top values)

module _ {A : Type 0} ⦃n : Number A⦄ where
  -- `resolve` answers every timeout of a list that is not empty at once, and each as if it had been
  -- asked alone: the verdict and the step of the first bar, from the entry bar on, that touches the
  -- stop or the target, the stop winning where it touches both, if that comes within the timeout's
  -- limit; else a timeout; or the end of the data, if that comes before the limit. Timeout 0 has the
  -- limit 2000.
  pub resolve-case_outcome :
      (bars : List (Bar A)) (entry_index : ℕ) (entry stop_price target_price : A) (long : Bool)
      (value : ℕ) (rest : List ℕ)
      → (outcome : Dict ℕ (Verdict × ℕ)) × (resolve bars entry_index entry stop_price target_price
            long
            (value ∷ rest)
          ≡ ok outcome)
        × All
            (λ v.
              get v outcome
              ≡ some
                  (case_outcome long stop_price target_price (drop entry_index bars) (limit_of v)))
            (value ∷ rest)
  unfolding resolve
  resolve-case_outcome bars entry_index entry stop_price target_price long value rest =
      let from_entry = drop entry_index bars in
      let longest = maximum (limit_of value) (map limit_of rest) in
      let w = walk long stop_price target_price (longest + 1) 0 0 from_entry in
      let w_lem = λ (limit : ℕ) (h : limit ≤ longest).
        let walked = walk_lem long stop_price target_price (longest + 1) 0 0 from_entry refl in
        let r : answer w limit ≡ case_outcome long stop_price target_price from_entry limit =
          rw walked (answer_lem long stop_price target_price longest limit from_entry h) in
        r in
      (
        answers w (value ∷ rest) [],
        refl,
        answers-All long stop_price target_price from_entry w longest w_lem (value ∷ rest) []
            (le-maximum (limit_of value) (map limit_of rest), maximum-All (limit_of value) rest),
      )
