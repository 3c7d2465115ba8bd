-- ===== src/Kernel/Ledger.antt =====
-- The order of the trades in the kernel's ledger: one position at a time, entered on the bar after
-- its signal, and no signal on or before the bar of the exit before it.
use arkana.Base.{
  ℕ, ◌≤◌, ◌<◌, ◌≡◌, refl, Bool, true, false, Option, none, some, List, [], ◌∷◌, ◌++◌, ok, >>=-eq-ok,
  ok-injective, ap, sym, ◌∙◌, arith, Number, Option-cases, inl, inr, subst,
}
use arkana.Market.{Bar, IsChronological}
use arkana.Kernel.{
  Callbacks, Config, Trade, State, Active, Reason, Evaluation, simulate_kernel, step, over_chunk,
  over_chunks, close_open, manage, extend, dispatch, hits, exit_of, trade_of, emit, rotate,
  eligibility, take_signal, open_position, side_of, start, data_end,
}
use arkana.Kernel.Chunks.{concat, over_chunks-eq-over_chunk}

module _ {A : Type 0} where
  -- The trades after time `t`: signal, entry and exit of each, and then the next.
  abbrev pub IsSequenced : ℕ → List (Trade A) → Type 0
  IsSequenced t [] = Unit
  IsSequenced t (x ∷ trades) =
      (t < x.signal_timestamp)
      × (x.signal_timestamp < x.entry_timestamp)
      × (x.entry_timestamp ≤ x.exit_timestamp)
      × IsSequenced x.exit_timestamp trades

  abbrev last_exit : ℕ → List (Trade A) → ℕ
  last_exit t [] = t
  last_exit t (x ∷ trades) = last_exit x.exit_timestamp trades

  IsSequenced-append :
      (t : ℕ) (trades : List (Trade A)) (x : Trade A)
      → IsSequenced t trades
      → last_exit t trades < x.signal_timestamp
      → x.signal_timestamp < x.entry_timestamp
      → x.entry_timestamp ≤ x.exit_timestamp
      → IsSequenced t (trades ++ (x ∷ []))
  IsSequenced-append t [] x s a b c = (a, b, c, tt)
  IsSequenced-append t (y ∷ trades) x s a b c =
      (s.0, s.1, s.2, IsSequenced-append y.exit_timestamp trades x s.3 a b c)

  last_exit-append :
      (t : ℕ) (trades : List (Trade A)) (x : Trade A)
      → last_exit t (trades ++ (x ∷ [])) ≡ x.exit_timestamp
  last_exit-append t [] x = refl
  last_exit-append t (y ∷ trades) x = last_exit-append y.exit_timestamp trades x

  abbrev SignalAt : ℕ → Option (Bar A) → Type 0
  SignalAt now none = Unit
  SignalAt now (some g) = g.timestamp ≡ now

  abbrev IsOpenWindow : ℕ → ℕ → Option (Bar A) → Type 0
  IsOpenWindow e now none = Unit
  IsOpenWindow e now (some b) = e < now

  abbrev IsHeld : ℕ → ℕ → Option (Active A) → Type 0
  IsHeld e now none = Unit
  IsHeld e now (some p) =
      (e < p.signal.timestamp)
      × (p.signal.timestamp < p.entry_bar.timestamp)
      × (p.entry_bar.timestamp ≤ now)

  -- The state after the candle of time `now`, in a run that began after `t`.
  record IsTimed {D : Type 0} (t now : ℕ) (s : State A D) : Type 0 where
    sequenced : IsSequenced t s.trades
    exit_le : last_exit t s.trades ≤ now
    signal_at : SignalAt now s.signal
    window : IsOpenWindow (last_exit t s.trades) now s.before_signal
    held : IsHeld (last_exit t s.trades) now s.active

module _ {A : Type 0} ⦃n : Number A⦄ {D : Type 0} (cb : Callbacks A D) (c : Config A)
    (keeps : cb.on_trade ≡ none) where
  emit_lem :
      (x : Trade A) (s : State A D) → emit cb c x s ≡ record s { trades = s.trades ++ (x ∷ []) }
  unfolding emit
  emit_lem x s = rw keeps

  rotate_closed-IsTimed :
      (t : ℕ) (s : State A D) (p : Active A) (candle : Bar A) (price : A) (reason : Reason)
      → IsSequenced t s.trades
      → IsHeld (last_exit t s.trades) candle.timestamp (some p)
      → IsTimed t candle.timestamp (
          rotate cb c true candle
            (record (emit cb c (trade_of c p candle price reason) s) { active = none }))
  unfolding rotate trade_of
  rotate_closed-IsTimed t s p candle price reason q h =
      let x = trade_of c p candle price reason in
      rw (emit_lem x s) (record {
        sequenced = IsSequenced-append t s.trades x q h.0 h.1 h.2;
        exit_le = rw last_exit-append (omega arith);
        signal_at = refl;
        window = tt;
        held = tt;
      })

  window-any : (e now : ℕ) (o : Option (Bar A)) → e < now → IsOpenWindow e now o
  window-any e now none h = tt
  window-any e now (some b) h = h

  rotate_open-IsTimed :
      (t : ℕ) (s : State A D) (candle : Bar A)
      → IsSequenced t s.trades
      → last_exit t s.trades < candle.timestamp
      → IsHeld (last_exit t s.trades) candle.timestamp s.active
      → IsTimed t candle.timestamp (rotate cb c false candle s)
  unfolding rotate
  rotate_open-IsTimed t s candle q lt held = record {
    sequenced = q;
    exit_le = omega arith;
    signal_at = refl;
    window = window-any (last_exit t s.trades) candle.timestamp s.signal lt;
    held = held;
  }

  manage-IsTimed :
      (t : ℕ) (s : State A D) (p : Active A) (candle : Bar A)
      → IsSequenced t s.trades
      → last_exit t s.trades < candle.timestamp
      → IsHeld (last_exit t s.trades) candle.timestamp (some p)
      → IsTimed t candle.timestamp (manage cb c p candle s)
  unfolding manage
  manage-IsTimed t s p candle q lt held =
      elim (Option-cases (exit_of p (hits (side_of c) candle p.stop p.target))) [
        | inl stays ↦
            rw (stays, manage)
              (rotate_open-IsTimed t (record s { active = some p }) candle q lt held)
        | inr ((price, reason), leaves) ↦
            rw (leaves, manage) (rotate_closed-IsTimed t s p candle price reason q held)
      ]

  -- The position that `open_position` returns stands on its signal and its candle.
  open_position-held :
      (g candle : Bar A) (evaluation : Option (Evaluation A)) (p : Active A)
      → open_position c g candle evaluation ≡ ok p
      → (p.signal ≡ g) × (p.entry_bar ≡ candle)
  unfolding open_position
  open_position-held g candle evaluation p h = ground arith

  take_signal-IsTimed :
      (t : ℕ) (b : Bool) (evaluation : Option (Evaluation A)) (g candle : Bar A) (s s' : State A D)
      → IsSequenced t s.trades
      → last_exit t s.trades < g.timestamp
      → g.timestamp < candle.timestamp
      → s.active ≡ none
      → take_signal cb c b evaluation g candle s ≡ ok s'
      → IsTimed t candle.timestamp s'
  unfolding take_signal
  take_signal-IsTimed t true evaluation g candle s s' q e lt idle h =
      let (p, is_open, done) = >>=-eq-ok (open_position c g candle evaluation) _ h in
      let (at_signal, at_entry) = open_position-held g candle evaluation p is_open in
      let signal_time = ap (λ (b : Bar A). b.timestamp) at_signal in
      let entry_time = ap (λ (b : Bar A). b.timestamp) at_entry in
      subst (IsTimed t candle.timestamp) (ok-injective done) (
        manage-IsTimed t (record s { env = cb.on_entry candle (cb.on_signal g s.env) }) p candle q
          (omega arith) (omega arith, omega arith, omega arith))
  take_signal-IsTimed t false evaluation g candle s s' q e lt idle h =
      subst (IsTimed t candle.timestamp) (ok-injective h)
        (rotate_open-IsTimed t s candle q (omega arith) (rw idle tt))

  dispatch-IsTimed :
      (t now : ℕ) (s s' : State A D) (active : Option (Active A)) (before signal : Option (Bar A))
      (candle : Bar A)
      → IsTimed t now s
      → now < candle.timestamp
      → s.active ≡ active
      → s.before_signal ≡ before
      → s.signal ≡ signal
      → dispatch cb c candle s active before signal ≡ ok s'
      → IsTimed t candle.timestamp s'
  unfolding dispatch extend
  dispatch-IsTimed t now s s' (some p) before signal candle h lt a b g e =
      let held = rw a at h.held in
      subst (IsTimed t candle.timestamp) (ok-injective e) (
        manage-IsTimed t s (extend p candle) candle h.sequenced (omega arith)
          (held.0, held.1, omega arith))
  dispatch-IsTimed t now s s' none (some b') (some g') candle h lt a b g e =
      let signal_time = rw g at h.signal_at in
      let window = rw b at h.window in
      let ((eligible, evaluation, d), decided, taken) =
        >>=-eq-ok (eligibility cb c b' g' s.env) _ e in
      take_signal-IsTimed t eligible evaluation g' candle (record s { env = d }) s' h.sequenced
        (omega arith) (omega arith) a taken
  dispatch-IsTimed t now s s' none none signal candle h lt a b g e =
      subst (IsTimed t candle.timestamp) (ok-injective e)
        (rotate_open-IsTimed t s candle h.sequenced (omega arith) (rw a tt))
  dispatch-IsTimed t now s s' none (some b') none candle h lt a b g e =
      subst (IsTimed t candle.timestamp) (ok-injective e)
        (rotate_open-IsTimed t s candle h.sequenced (omega arith) (rw a tt))

  step-IsTimed :
      (t now : ℕ) (s s' : State A D) (candle : Bar A)
      → IsTimed t now s
      → now < candle.timestamp
      → step cb c s candle ≡ ok s'
      → IsTimed t candle.timestamp s'
  unfolding step
  step-IsTimed t now s s' candle h lt e =
      dispatch-IsTimed t now (record s { env = cb.on_candle candle s.env }) s' s.active
        s.before_signal s.signal candle
        (record {
          sequenced = h.sequenced;
          exit_le = h.exit_le;
          signal_at = h.signal_at;
          window = h.window;
          held = h.held;
        })
        lt refl refl refl e

  over_chunk-IsTimed :
      (t now : ℕ) (bars : List (Bar A)) (s s' : State A D)
      → IsTimed t now s
      → IsChronological now bars
      → over_chunk cb c bars s ≡ ok s'
      → (later : ℕ) × IsTimed t later s'
  unfolding over_chunk
  over_chunk-IsTimed t now [] s s' h k e = (now, subst (IsTimed t now) (ok-injective e) h)
  over_chunk-IsTimed t now (b ∷ bars) s s' h k e =
      let (mid, stepped, rest) = >>=-eq-ok (step cb c s b) _ e in
      over_chunk-IsTimed t b.timestamp bars mid s' (step-IsTimed t now s mid b h k.0 stepped) k.1
        rest

  close_open-IsSequenced :
      (t now : ℕ) (s s' : State A D) (active : Option (Active A)) (signal : Option (Bar A))
      → IsTimed t now s
      → s.active ≡ active
      → s.signal ≡ signal
      → close_open cb c s active signal ≡ ok s'
      → IsSequenced t s'.trades
  unfolding close_open trade_of
  close_open-IsSequenced t now s s' none signal h a g e =
      subst (λ (x : State A D). IsSequenced t x.trades) (ok-injective e) h.sequenced
  close_open-IsSequenced t now s s' (some p) none h a g e = cc
  close_open-IsSequenced t now s s' (some p) (some candle) h a g e =
      let held = rw a at h.held in
      let signal_time = rw g at h.signal_at in
      let x = trade_of c p candle candle.close data_end in
      subst (λ (x : State A D). IsSequenced t x.trades) (sym (emit_lem x s) ∙ ok-injective e)
        (IsSequenced-append t s.trades x h.sequenced held.0 held.1 (omega arith))

  -- Over bars in chronological order after time `t`, however they are cut into chunks, the ledger is
  -- in order: each trade's signal comes before its entry and its entry not after its exit, and the
  -- next signal comes after that exit.
  pub simulate_kernel-IsSequenced :
      (t : ℕ) (chunks : List (List (Bar A))) (d : D) {d' : D} {ledger : List (Trade A)}
      → IsChronological t (concat chunks)
      → simulate_kernel cb c chunks d ≡ ok (d', ledger)
      → IsSequenced t ledger
  unfolding simulate_kernel
  simulate_kernel-IsSequenced t chunks d {ledger} k e =
      let s₀ = start cb c d in
      let (s, ran, closing) = >>=-eq-ok (over_chunks cb c chunks s₀) _ e in
      let (s', closed, done) = >>=-eq-ok (close_open cb c s s.active s.signal) _ closing in
      let (now, timed) =
        over_chunk-IsTimed t t (concat chunks) s₀ s
          (record { sequenced = tt; exit_le = omega arith; signal_at = tt; window = tt; held = tt })
          k (sym (over_chunks-eq-over_chunk cb c chunks s₀) ∙ ran) in
      subst (IsSequenced t) (ap (λ (r : D × List (Trade A)). r.1) (ok-injective done))
        (close_open-IsSequenced t now s s' s.active s.signal timed refl refl closed)
