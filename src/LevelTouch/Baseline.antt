-- ===== src/LevelTouch/Baseline.antt =====
-- `_sampler` and `random_baseline` of services/research/app/level_touch.py. `sha256` is not code of the
-- repository: the integer that it gives for the seed text is the argument `digest`.
pub mod Total
use arkana.Base.{
  ℕ, zero, suc, ◌+◌, ◌-◌, ◌*◌, ◌%◌, ◌^◌, ◌≤◌, ◌<◌, ◌≡◌, refl, Bool, true, false, Option, none, some,
  List, [], ◌∷◌, map, Result, ok, raised, ◌>>=◌, Returned, >>=-returns, arith, ltb, leb, ◌==◌,
  length, get_elem?, Number, nought, if◌then◌else◌, Dict, get, put, get-put, nat_key, All,
  Option-cases, inl, inr,
}
use arkana.Market.{Bar}
use arkana.LevelTouch.{Verdict, resolve}
use arkana.LevelTouch.Tally.{Tally, new_tally, add, read, Reading}

-- The generator's state at the start: `int(...) or 1`.
pub seed_of : ℕ → ℕ
seed_of digest = if digest == 0 then 1 else digest

pub next_state : ℕ → ℕ
next_state state = (1103515245 * state + 12345) % 2 ^ 31

-- `nextint(bound)` with the state after it; `% 0` raises in Python.
pub nextint : ℕ → ℕ → Result (ℕ × ℕ)
unfolding next_state
nextint zero state = raised "integer modulo by zero"
nextint (suc bound) state = let state' = next_state state in ok (state' % suc bound, state')

-- `tallies[timeout].add(verdict, steps)` for the items of `resolve(...)`
pub add_all : Dict ℕ (Verdict × ℕ) → Dict ℕ Tally → Result (Dict ℕ Tally)
unfolding add
add_all [] tallies = ok tallies
add_all ((timeout, (verdict, steps)) ∷ rest) tallies = elim (get timeout tallies) [
  | none ↦ raised "KeyError"
  | some tally ↦ add_all rest (put timeout (add tally verdict steps) tallies)
]

-- `{timeout: _Tally() for timeout in timeouts}`
pub new_tallies : List ℕ → Dict ℕ Tally → Dict ℕ Tally
new_tallies [] tallies = tallies
new_tallies (timeout ∷ rest) tallies = new_tallies rest (put timeout new_tally tallies)

pub record Baseline (A : Type 0) : Type 0 where
  pub resolved : ℕ
  pub target_rate : Option A

module _ {A : Type 0} ⦃n : Number A⦄ (bars : List (Bar A)) (distance_of : ℕ → A → Option A)
    (long : Bool) (multiple spread : A) (timeouts : List ℕ) where
  -- The case that a hypothetical entry on `bars[index + 1]` makes.
  pub one_case : ℕ → Bar A → Dict ℕ Tally → Result (Dict ℕ Tally)
  unfolding resolve add_all
  one_case index entry_bar tallies =
      let entry = n.add entry_bar.open_price (if long then spread else n.neg spread) in
      elim (distance_of index entry) [
        | none ↦ ok tallies
        | some distance ↦
            if n.le distance nought
            then ok tallies
            else (let reach = n.mul distance multiple in
                let stop = if long then n.sub entry distance else n.add entry distance in
                let target = if long then n.add entry reach else n.sub entry reach in
                resolve bars (index + 1) entry stop target long timeouts >>= λ outcomes.
                add_all outcomes tallies)
      ]

  -- `bars[index + 1]` and its case
  pub case_of_index : ℕ → Dict ℕ Tally → Result (Dict ℕ Tally)
  unfolding one_case
  case_of_index index tallies = elim (get_elem? bars (index + 1)) [
    | none ↦ raised "list index out of range"
    | some entry_bar ↦ one_case index entry_bar tallies
  ]

  -- `for _ in range(samples)`
  pub sample : ℕ → ℕ → Dict ℕ Tally → Result (Dict ℕ Tally)
  unfolding nextint case_of_index
  sample zero state tallies = ok tallies
  sample (suc samples) state tallies =
      nextint (length bars - 2) state >>= λ r. case_of_index r.0 tallies >>= sample samples r.1

  abbrev pub baseline_of : ℕ × Tally → ℕ × Baseline A
  baseline_of (timeout, tally) = (
    timeout,
    record {
      resolved = tally.target + tally.stop;
      target_rate = (read tally true).target_rate_of_resolved;
    },
  )

  unfoldable pub random_baseline : ℕ → ℕ → Result (Dict ℕ (Baseline A))
  unfolding sample new_tallies seed_of
  random_baseline digest samples =
      if ltb (length bars) 3
      then ok (map (λ t. (t, record { resolved = 0; target_rate = none })) timeouts)
      else (sample samples (seed_of digest) (new_tallies timeouts []) >>= λ tallies.
          ok (map baseline_of tallies))
