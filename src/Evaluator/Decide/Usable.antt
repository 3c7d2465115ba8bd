-- ===== src/Evaluator/Decide/Usable.antt =====
-- The evaluator as the kernel's decider: it answers whenever its candles are registered, and the
-- distances that it gives are ones that the kernel accepts.
use arkana.Base.{
  ℕ, ◌+◌, ◌≡◌, refl, Bool, false, ◌&&◌, Option, none, some, List, [], ◌∷◌, ◌++◌, Result, ok, ◌>>=◌,
  Returned, >>=-returns, arith, Number, nought, Dict, get, Has, Option-cases, Bool-cases, inl, inr,
  all_of,
}
use arkana.Market.{Bar}
use arkana.Kernel.{Config, Evaluation, simulate_kernel}
use arkana.Kernel.Legacy.{no_callbacks}
use arkana.Kernel.Returns.{IsUsable, IsDistance, simulate_kernel-returns}
use arkana.Indicators.{average_true_range}
use arkana.Evaluator.{
  Timeframe, Rule, block, all_rules, any_rules, not_rule, Rules, no_rules, more_rules, timeframe_of,
  block_truth, rule_truth, rules_truth,
}
use arkana.Evaluator.Lookbacks.{
  timeframe_key, need, need_all, rule_lookbacks, rules_lookbacks, block_lookback,
}
use arkana.Evaluator.Lookbacks.Enough.{
  Covers, Covers-trans, Covers-need, need_all-Covers, Covers-rules_lookbacks,
}
use arkana.Evaluator.Decide.{
  Contract, Distances, not_scaled, insufficient, scaled, required_lookbacks, scaled_side,
  join_sides, distances_of, distances, as_value, evaluation_of, in_session, decide_on,
  batch_available, decide, completed, close_time,
}

module _ {A : Type 0} ⦃n : Number A⦄ (pstdev : List A → A) (execution : Timeframe)
    (available : Timeframe → Result (List (Bar A))) where
  -- The candles of every timeframe in the dictionary are there.
  abbrev pub HasCandles : Dict Timeframe ℕ → Type 0
  HasCandles lookbacks = (t : Timeframe) (c : ℕ) → get t lookbacks ≡ some c → Returned (available t)

  HasCandles-Covers :
      (small big : Dict Timeframe ℕ) → Covers small big → HasCandles big → HasCandles small
  HasCandles-Covers small big h has t c e = let (c', found, _) = h t c e in has t c' found

  mutual
    unfolding rule_truth rule_lookbacks get

    rule-returns :
        (rule : Rule A)
        → HasCandles (rule_lookbacks execution rule)
        → Returned (rule_truth pstdev execution available rule)
    rule-returns (block t b) has =
        let at = timeframe_of execution t in
        let (bars, there) =
          has at (block_lookback b) (rw ((timeframe_key.same_iff at at).1 refl)) in
        (block_truth pstdev b bars, rw there)
    rule-returns (all_rules children) has =
        >>=-returns _ _ (rules-returns children [] has) λ truths. (_, refl)
    rule-returns (any_rules children) has =
        >>=-returns _ _ (rules-returns children [] has) λ truths. (_, refl)
    rule-returns (not_rule child) has = >>=-returns _ _ (rule-returns child has) λ t. (_, refl)

    rules-returns :
        (rules : Rules A) (result : Dict Timeframe ℕ)
        → HasCandles (rules_lookbacks execution rules result)
        → Returned (rules_truth pstdev execution available rules)
    rules-returns no_rules result has = ([], refl)
    rules-returns (more_rules rule rest) result has =
        let own = rule_lookbacks execution rule in
        let needed = need_all own result in
        let all = rules_lookbacks execution rest needed in
        let covered =
          Covers-trans own needed all (need_all-Covers own result)
            (Covers-rules_lookbacks execution rest needed) in
        >>=-returns _ _ (rule-returns rule (HasCandles-Covers own all covered has))
          λ t. >>=-returns _ _ (rules-returns rest needed has) λ ts. (_, refl)

-- Positive numbers have a positive product: the only law of the numbers that is needed.
abbrev pub MultipliesPositives : (A : Type 0) ⦃n : Number A⦄ → Type 0
MultipliesPositives A ⦃n⦄ =
    (a b : A) → n.le a nought ≡ false → n.le b nought ≡ false → n.le (n.mul a b) nought ≡ false

abbrev pub HasPositiveMultiplier : {A : Type 0} ⦃n : Number A⦄ → Option (ℕ × A) → Type 0
HasPositiveMultiplier none = Unit
HasPositiveMultiplier ⦃n⦄ (some (period, multiplier)) = n.le multiplier nought ≡ false

module _ {A : Type 0} ⦃n : Number A⦄ (positive : MultipliesPositives A) where
  abbrev IsSide : Option (Option A) → Type 0
  IsSide none = Unit
  IsSide (some v) = IsDistance (as_value v)

  scaled_side-IsSide :
      (bars : List (Bar A)) (scaling : Option (ℕ × A))
      → HasPositiveMultiplier scaling
      → IsSide (scaled_side bars scaling)
  unfolding scaled_side
  scaled_side-IsSide bars none h = tt
  scaled_side-IsSide bars (some (period, multiplier)) h =
      elim (Option-cases (average_true_range bars period)) [
        | inl missing ↦ rw (missing, scaled_side) tt
        | inr (atr, measured) ↦
            rw (measured, scaled_side)
              (elim (Bool-cases (n.le atr nought)) [
                | inl flat ↦ rw flat tt
                | inr moves ↦ rw moves (positive multiplier atr h moves)
              ])
      ]

  abbrev IsScaling : Distances A → Type 0
  IsScaling not_scaled = Unit
  IsScaling insufficient = Unit
  IsScaling (scaled stop target) = IsDistance (as_value stop) × IsDistance (as_value target)

  join_sides-IsScaling :
      (stop target : Option (Option A))
      → IsSide stop
      → IsSide target
      → IsScaling (join_sides stop target)
  join_sides-IsScaling none target h k = tt
  join_sides-IsScaling (some stop) none h k = tt
  join_sides-IsScaling (some stop) (some target) h k = (h, k)

  evaluation_of-IsUsable :
      (truth : Bool) (s : Distances A) → IsScaling s → IsUsable (some (evaluation_of truth s))
  unfolding evaluation_of
  evaluation_of-IsUsable truth not_scaled h = (tt, tt)
  evaluation_of-IsUsable truth insufficient h = (tt, tt)
  evaluation_of-IsUsable truth (scaled stop target) h = h

  distances_of-IsScaling :
      (stop target : Option (ℕ × A)) (bars : List (Bar A))
      → HasPositiveMultiplier stop
      → HasPositiveMultiplier target
      → (s : Distances A) × (distances_of stop target (ok bars) ≡ ok s) × IsScaling s
  unfolding distances_of
  distances_of-IsScaling none none bars h k = (not_scaled, refl, tt)
  distances_of-IsScaling none (some t) bars h k = (
    _,
    refl,
    join_sides-IsScaling (scaled_side bars none) (scaled_side bars (some t))
        (scaled_side-IsSide bars none h) (scaled_side-IsSide bars (some t) k),
  )
  distances_of-IsScaling (some s) target bars h k = (
    _,
    refl,
    join_sides-IsScaling (scaled_side bars (some s)) (scaled_side bars target)
        (scaled_side-IsSide bars (some s) h) (scaled_side-IsSide bars target k),
  )

module _ {A : Type 0} ⦃n : Number A⦄ (pstdev : List A → A) (c : Contract A) where
  abbrev from_start : Dict Timeframe ℕ
  from_start = (c.execution, 1) ∷ []

  abbrev after_context : Dict Timeframe ℕ
  after_context = rules_lookbacks c.execution c.context_rules from_start

  abbrev after_setup : Dict Timeframe ℕ
  after_setup = rules_lookbacks c.execution c.setup_rules after_context

  abbrev after_trigger : Dict Timeframe ℕ
  after_trigger = rules_lookbacks c.execution c.trigger_rules after_setup

  widen-Covers :
      (scaling : Option (ℕ × A)) (result : Dict Timeframe ℕ)
      → let widened : Dict Timeframe ℕ = elim scaling [
        | none ↦ result
        | some (period, _) ↦ need c.execution (period + 1) result
      ] in
        Covers result widened
  widen-Covers none result = λ t k e. (k, e, omega arith)
  widen-Covers (some (period, multiplier)) result = Covers-need c.execution (period + 1) result

  required-Covers : Covers after_trigger (required_lookbacks c)
  unfolding required_lookbacks
  required-Covers =
      Covers-trans after_trigger _ (required_lookbacks c)
        (widen-Covers c.stop_scaling after_trigger) (widen-Covers c.target_scaling _)

  from_start-execution : get c.execution from_start ≡ some 1
  unfolding get
  from_start-execution = rw ((timeframe_key.same_iff c.execution c.execution).1 refl)

  -- If every timeframe that `_required_lookbacks` names has its candles, `decide` returns.
  decide_on-returns :
      (available : Timeframe → Result (List (Bar A))) (signal : Bar A)
      → MultipliesPositives A
      → HasPositiveMultiplier c.stop_scaling
      → HasPositiveMultiplier c.target_scaling
      → HasCandles pstdev c.execution available (required_lookbacks c)
      → (e : Evaluation A) × (decide_on pstdev c available signal ≡ ok e) × IsUsable (some e)
  unfolding decide_on distances
  decide_on-returns available signal positive h k has =
      let required = required_lookbacks c in
      let of_trigger =
        HasCandles-Covers pstdev c.execution available after_trigger required required-Covers has in
      let of_setup =
        HasCandles-Covers pstdev c.execution available after_setup after_trigger
          (Covers-rules_lookbacks c.execution c.trigger_rules after_setup) of_trigger in
      let of_context =
        HasCandles-Covers pstdev c.execution available after_context after_setup
          (Covers-rules_lookbacks c.execution c.setup_rules after_context) of_setup in
      let of_start =
        HasCandles-Covers pstdev c.execution available from_start after_context
          (Covers-rules_lookbacks c.execution c.context_rules from_start) of_context in
      let (context, ran_context) =
        rules-returns pstdev c.execution available c.context_rules from_start of_context in
      let (setup, ran_setup) =
        rules-returns pstdev c.execution available c.setup_rules after_context of_setup in
      let (trigger, ran_trigger) =
        rules-returns pstdev c.execution available c.trigger_rules after_setup of_trigger in
      let (bars, there) = of_start c.execution 1 from_start-execution in
      let (s, scaling, is_scaling) =
        distances_of-IsScaling positive c.stop_scaling c.target_scaling bars h k in
      let truth = all_of (λ t. t) (context ++ (setup ++ trigger)) && in_session c signal in
      (
        evaluation_of truth s,
        rw (ran_context, ran_setup, ran_trigger, there, scaling),
        evaluation_of-IsUsable positive truth s is_scaling,
      )

  -- The evaluator over registered candles, as the decider of a kernel run.
  abbrev pub batch_decider :
      {D : Type 0}
      → Dict Timeframe (List (Bar A))
      → Bar A
      → Bar A
      → D
      → Result (Option (Evaluation A) × D)
  batch_decider bars before signal d = decide pstdev c bars before signal >>= λ e. ok (some e, d)

  -- If every timeframe that `_required_lookbacks` names is registered, the scalings have positive
  -- multipliers and positive numbers have positive products, a kernel run with the contract's batch
  -- evaluator as its decider returns: neither an absent timeframe nor a scaled distance can end it.
  pub simulate_kernel-decide :
      (bars : Dict Timeframe (List (Bar A))) (config : Config A) (chunks : List (List (Bar A)))
      → MultipliesPositives A
      → HasPositiveMultiplier c.stop_scaling
      → HasPositiveMultiplier c.target_scaling
      → ((t : Timeframe) (count : ℕ) → get t (required_lookbacks c) ≡ some count → Has t bars)
      → Returned (
          simulate_kernel
            (no_callbacks {D = Unit {0}} (some (batch_decider bars)))
            config
            chunks
            tt)
  unfolding decide batch_available
  simulate_kernel-decide bars config chunks positive h k registered =
      simulate_kernel-returns (no_callbacks (some (batch_decider bars))) config
        (λ before signal d.
          let (e, decided, usable) =
            decide_on-returns (batch_available pstdev c bars signal) signal positive h k
              (λ t count found.
                let (items, there) = registered t count found in
                (completed t (close_time c.execution signal) items, rw (there, batch_available))) in
          ((some e, d), rw decided, usable))
        chunks tt
