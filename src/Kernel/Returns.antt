-- ===== src/Kernel/Returns.antt =====
-- The kernel returns: the only errors on its path are a decider's own and a distance that the decider
-- gives and that is not a positive number.
use arkana.Base.{
  ◌≡◌, refl, Bool, true, false, Option, none, some, List, [], ◌∷◌, ok, arith, Returned, >>=-returns,
  String, Number, nought,
}
use arkana.Market.{Bar}
use arkana.Kernel.{
  Callbacks, Config, State, Active, Value, number, not_number, Evaluation, simulate_kernel, step,
  over_chunk, close_open, manage, dispatch, rotate, eligibility, take_signal, enter, open_position,
  distance, is_reversal, start,
}
use arkana.Kernel.Chunks.{concat, over_chunks-eq-over_chunk}
use arkana.Kernel.Legacy.{Decider}

module _ {A : Type 0} ⦃n : Number A⦄ where
  abbrev pub IsDistance : Option (Value A) → Type 0
  IsDistance none = Unit
  IsDistance (some (number v)) = n.le v nought ≡ false
  IsDistance (some not_number) = ⊥

  abbrev pub IsUsable : Option (Evaluation A) → Type 0
  IsUsable none = Unit
  IsUsable (some e) = IsDistance e.stop_distance × IsDistance e.target_distance

  -- The decider raises nothing, and the distances that it gives are positive numbers.
  abbrev pub Decides : {D : Type 0} → Option (Decider A D) → Type 0
  Decides none = Unit
  Decides {D} (some f) =
      (b g : Bar A) (d : D) → (r : Option (Evaluation A) × D) × (f b g d ≡ ok r) × IsUsable r.0

  abbrev HasSignal : Option (Active A) → Option (Bar A) → Type 0
  HasSignal none g = Unit
  HasSignal (some p) (some b) = Unit
  HasSignal (some p) none = ⊥

  any_active : (o : Option (Active A)) (b : Bar A) → HasSignal o (some b)
  any_active none b = tt
  any_active (some p) b = tt

  distance-returns :
      (v : Option (Value A)) (fixed : A) (message : String)
      → IsDistance v
      → Returned (distance v fixed message)
  unfolding distance
  distance-returns none fixed message h = (fixed, refl)
  distance-returns (some (number v)) fixed message h = (v, rw h)
  distance-returns (some not_number) fixed message h = absurd h

  open_position-returns :
      (c : Config A) (g candle : Bar A) (evaluation : Option (Evaluation A))
      → IsUsable evaluation
      → Returned (open_position c g candle evaluation)
  unfolding open_position
  open_position-returns c g candle none h = (_, refl)
  open_position-returns c g candle (some e) h =
      >>=-returns _ _ (distance-returns e.stop_distance c.stop_distance _ h.0) λ stop.
        >>=-returns _ _ (distance-returns e.target_distance c.target_distance _ h.1)
          λ target. (_, refl)

module _ {A : Type 0} ⦃n : Number A⦄ {D : Type 0} (cb : Callbacks A D) (c : Config A)
    (decides : Decides cb.signal_decider) where
  eligibility-returns :
      (o : Option (Decider A D)) (b g : Bar A) (d : D)
      → cb.signal_decider ≡ o
      → Decides o
      → (r : Bool × Option (Evaluation A) × D) × (eligibility cb c b g d ≡ ok r) × IsUsable r.1
  unfolding eligibility
  eligibility-returns none b g d e h = ((is_reversal b g, none, d), rw e, tt)
  eligibility-returns (some f) b g d e h =
      let ((o, d'), returned, usable) = h b g d in
      let eligible : Bool = elim o [ none ↦ false | some ev ↦ ev.eligible ] in
      ((eligible, o, d'), rw (e, returned), usable)

  signal-manage :
      (p : Active A) (candle : Bar A) (s : State A D)
      → (manage cb c p candle s).signal ≡ some candle
  unfolding manage rotate
  signal-manage p candle s = ground arith

  take_signal-returns :
      (b : Bool) (evaluation : Option (Evaluation A)) (g candle : Bar A) (s : State A D)
      → IsUsable evaluation
      → (s' : State A D) × (take_signal cb c b evaluation g candle s ≡ ok s')
        × (s'.signal ≡ some candle)
  unfolding take_signal rotate
  take_signal-returns false evaluation g candle s h = (_, refl, refl)
  take_signal-returns true evaluation g candle s h =
      let (p, opened) = open_position-returns c g candle evaluation h in
      let s' = record s { env = cb.on_entry candle (cb.on_signal g s.env) } in
      (manage cb c p candle s', rw opened, signal-manage p candle s')

  dispatch-returns :
      (candle : Bar A) (s : State A D) (active : Option (Active A)) (before signal : Option (Bar A))
      → (s' : State A D) × (dispatch cb c candle s active before signal ≡ ok s')
        × (s'.signal ≡ some candle)
  unfolding dispatch rotate enter
  dispatch-returns candle s (some p) before signal = (_, refl, signal-manage _ candle s)
  dispatch-returns candle s none (some b) (some g) =
      let ((eligible, evaluation, d), decided, usable) =
        eligibility-returns cb.signal_decider b g s.env refl decides in
      let (s', taken, at_signal) =
        take_signal-returns eligible evaluation g candle (record s { env = d }) usable in
      (s', rw (decided, enter) taken, at_signal)
  dispatch-returns candle s none none signal = (_, refl, refl)
  dispatch-returns candle s none (some b) none = (_, refl, refl)

  over_chunk-returns :
      (bars : List (Bar A)) (s : State A D)
      → HasSignal s.active s.signal
      → (s' : State A D) × (over_chunk cb c bars s ≡ ok s') × HasSignal s'.active s'.signal
  unfolding over_chunk step
  over_chunk-returns [] s h = (s, refl, h)
  over_chunk-returns (b ∷ bars) s h =
      let (mid, stepped, at_signal) =
        dispatch-returns b (record s { env = cb.on_candle b s.env }) s.active s.before_signal
          s.signal in
      let (s', ran, k) = over_chunk-returns bars mid (rw at_signal (any_active mid.active b)) in
      (s', rw stepped ran, k)

  close_open-returns :
      (s : State A D) (active : Option (Active A)) (signal : Option (Bar A))
      → HasSignal active signal
      → Returned (close_open cb c s active signal)
  unfolding close_open
  close_open-returns s none signal h = (s, refl)
  close_open-returns s (some p) (some candle) h = (_, refl)
  close_open-returns s (some p) none h = absurd h

  -- With no decider, or with one that raises nothing and gives positive distances, the kernel returns
  -- an environment and a ledger, whatever the bars.
  pub simulate_kernel-returns :
      (chunks : List (List (Bar A))) (d : D) → Returned (simulate_kernel cb c chunks d)
  unfolding simulate_kernel
  simulate_kernel-returns chunks d =
      let s₀ = start cb c d in
      let (s, ran, ready) = over_chunk-returns (concat chunks) s₀ tt in
      rw (over_chunks-eq-over_chunk cb c chunks s₀, ran)
        (>>=-returns _ _ (close_open-returns s s.active s.signal ready) (λ s'. (_, refl)))
