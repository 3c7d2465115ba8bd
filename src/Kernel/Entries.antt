-- ===== src/Kernel/Entries.antt =====
-- The calls of `on_entry` against the trades: every position that the kernel opens is recorded once.
use arkana.Base.{
  ℕ, suc, ◌+◌, ◌≡◌, refl, Bool, true, false, Option, none, some, List, [], ◌∷◌, ok, >>=-eq-ok,
  ok-injective, sym, subst, ◌∙◌, arith, length, length-append, Number, Option-cases, inl, inr,
}
use arkana.Market.{Bar}
use arkana.Kernel.{
  Callbacks, Config, Trade, State, Active, Evaluation, simulate_kernel, step, over_chunk,
  over_chunks, close_open, manage, dispatch, hits, exit_of, trade_of, emit, rotate, eligibility,
  take_signal, enter, open_position, side_of, start, data_end,
}
use arkana.Kernel.Chunks.{concat, over_chunks-eq-over_chunk}
use arkana.Kernel.Legacy.{Decider}

abbrev pub KeepsCount : {A D : Type 0} → (D → ℕ) → Option (Decider A D) → Type 0
KeepsCount count none = Unit
KeepsCount {A} {D} count (some f) =
    (b g : Bar A) (d : D) (r : Option (Evaluation A) × D) → f b g d ≡ ok r → count r.1 ≡ count d

-- A count that the caller's closures keep, such as `entry_index` bookkeeping: `on_entry` adds one,
-- and no other callback changes it.
pub record CountsEntries {A D : Type 0} (cb : Callbacks A D) (count : D → ℕ) : Type 0 where
  pub keeps_ledger : cb.on_trade ≡ none
  pub candle : (b : Bar A) (d : D) → count (cb.on_candle b d) ≡ count d
  pub signal : (b : Bar A) (d : D) → count (cb.on_signal b d) ≡ count d
  pub entry : (b : Bar A) (d : D) → count (cb.on_entry b d) ≡ suc (count d)
  pub decider : KeepsCount count cb.signal_decider

abbrev pub held : {A : Type 0} → Option (Active A) → ℕ
held none = 0
held (some p) = 1

module _ {A : Type 0} ⦃n : Number A⦄ {D : Type 0} (cb : Callbacks A D) (c : Config A)
    (count : D → ℕ) (counts : CountsEntries cb count) where
  open counts use {keeps_ledger}

  abbrev IsBalanced : State A D → Type 0
  IsBalanced s = count s.env ≡ length s.trades + held s.active

  -- Taking in a position that stands in the count, but not yet in the state.
  manage-IsBalanced :
      (p : Active A) (candle : Bar A) (s : State A D)
      → count s.env ≡ length s.trades + 1
      → IsBalanced (manage cb c p candle s)
  unfolding manage emit rotate
  manage-IsBalanced p candle s h =
      elim (Option-cases (exit_of p (hits (side_of c) candle p.stop p.target))) [
        | inl stays ↦ rw (stays, manage) h
        | inr ((price, reason), leaves) ↦
            let x = trade_of c p candle price reason in
            rw (leaves, manage, keeps_ledger) (omega (arith, length-append s.trades (x ∷ [])))
      ]

  eligibility-count :
      (o : Option (Decider A D)) (b g : Bar A) (d : D) (r : Bool × Option (Evaluation A) × D)
      → cb.signal_decider ≡ o
      → KeepsCount count o
      → eligibility cb c b g d ≡ ok r
      → count r.2 ≡ count d
  unfolding eligibility
  eligibility-count none b g d r e k h = ground arith
  eligibility-count (some f) b g d r e k h =
      let ((o, d'), decided, done) = >>=-eq-ok (f b g d) _ (rw e at h) in
      subst (λ (x : Bool × Option (Evaluation A) × D). count x.2 ≡ count d) (ok-injective done)
        (k b g d (o, d') decided)

  take_signal-IsBalanced :
      (b : Bool) (evaluation : Option (Evaluation A)) (g candle : Bar A) (s s' : State A D)
      → s.active ≡ none
      → count s.env ≡ length s.trades
      → take_signal cb c b evaluation g candle s ≡ ok s'
      → IsBalanced s'
  unfolding take_signal rotate
  take_signal-IsBalanced false evaluation g candle s s' a h e =
      subst IsBalanced (ok-injective e) (rw a (omega arith))
  take_signal-IsBalanced true evaluation g candle s s' a h e =
      let (p, opened, done) = >>=-eq-ok (open_position c g candle evaluation) _ e in
      let env = cb.on_entry candle (cb.on_signal g s.env) in
      subst IsBalanced (ok-injective done) (
        manage-IsBalanced p candle (record s { env = env })
          (omega (arith, counts.entry candle (cb.on_signal g s.env), counts.signal g s.env)))

  dispatch-IsBalanced :
      (candle : Bar A) (s s' : State A D) (active : Option (Active A))
      (before signal : Option (Bar A))
      → s.active ≡ active
      → IsBalanced s
      → dispatch cb c candle s active before signal ≡ ok s'
      → IsBalanced s'
  unfolding dispatch rotate enter
  dispatch-IsBalanced candle s s' (some p) before signal a h e =
      subst IsBalanced (ok-injective e) (manage-IsBalanced _ candle s (rw a at h))
  dispatch-IsBalanced candle s s' none none signal a h e = subst IsBalanced (ok-injective e) h
  dispatch-IsBalanced candle s s' none (some b) none a h e = subst IsBalanced (ok-injective e) h
  dispatch-IsBalanced candle s s' none (some b) (some g) a h e =
      let ((eligible, evaluation, d), decided, taken) =
        >>=-eq-ok (eligibility cb c b g s.env) _ e in
      let same = eligibility-count cb.signal_decider b g s.env _ refl counts.decider decided in
      take_signal-IsBalanced eligible evaluation g candle (record s { env = d }) s' a
        (omega (arith, same, rw a at h)) taken

  over_chunk-IsBalanced :
      (bars : List (Bar A)) (s s' : State A D)
      → IsBalanced s
      → over_chunk cb c bars s ≡ ok s'
      → IsBalanced s'
  unfolding over_chunk step
  over_chunk-IsBalanced [] s s' h e = subst IsBalanced (ok-injective e) h
  over_chunk-IsBalanced (b ∷ bars) s s' h e =
      let (mid, stepped, rest) = >>=-eq-ok (step cb c s b) _ e in
      over_chunk-IsBalanced bars mid s'
        (dispatch-IsBalanced b (record s { env = cb.on_candle b s.env }) mid s.active
          s.before_signal s.signal refl (omega (arith, counts.candle b s.env, h)) stepped)
        rest

  close_open-entries :
      (s s' : State A D) (active : Option (Active A)) (signal : Option (Bar A))
      → s.active ≡ active
      → IsBalanced s
      → close_open cb c s active signal ≡ ok s'
      → count s'.env ≡ length s'.trades
  unfolding close_open emit
  close_open-entries s s' none signal a h e =
      subst (λ (x : State A D). count x.env ≡ length x.trades) (ok-injective e)
        (omega (arith, rw a at h))
  close_open-entries s s' (some p) none a h e = cc
  close_open-entries s s' (some p) (some candle) a h e =
      let x = trade_of c p candle candle.close data_end in
      subst (λ (x : State A D). count x.env ≡ length x.trades) (ok-injective e)
        (rw keeps_ledger (omega (arith, rw a at h, length-append s.trades (x ∷ []))))

  -- When the run ends, the calls of `on_entry` are as many as the trades of the ledger: no position is
  -- left open, lost or recorded twice. The callbacks are any that keep such a count.
  pub simulate_kernel-entries :
      (chunks : List (List (Bar A))) (d : D) {d' : D} {ledger : List (Trade A)}
      → count d ≡ 0
      → simulate_kernel cb c chunks d ≡ ok (d', ledger)
      → count d' ≡ length ledger
  unfolding simulate_kernel
  simulate_kernel-entries chunks d {d'} {ledger} zero_entries e =
      let s₀ = start cb c d in
      let (s, ran, closing) = >>=-eq-ok (over_chunks cb c chunks s₀) _ e in
      let (s', closed, done) = >>=-eq-ok (close_open cb c s s.active s.signal) _ closing in
      subst (λ (r : D × List (Trade A)). count r.0 ≡ length r.1) (ok-injective done)
        (close_open-entries s s' s.active s.signal refl
          (over_chunk-IsBalanced (concat chunks) s₀ s (omega arith)
            (sym (over_chunks-eq-over_chunk cb c chunks s₀) ∙ ran))
          closed)
