-- ===== src/Kernel/Regimes.antt =====
-- The kernel with the breakdown of services/research/app/oos_validation.py as its callbacks, as
-- `_evaluate` passes them: under which regime each trade is filed.
use arkana.Base.{
  ℕ, ◌≡◌, refl, sym, ap, subst, ◌∙◌, Bool, true, false, Option, none, some, List, [], ◌∷◌, ◌++◌,
  foldl, Result, ok, ◌>>=◌, >>=-eq-ok, ok-injective, Number, String, Dict, All, All-append, All-map,
  Option-cases, inl, inr, append-snoc, append_nil, arith,
}
use arkana.Market.{Bar}
use arkana.Kernel.{
  Callbacks, Config, Trade, Reason, State, Active, Evaluation, simulate_kernel, step, over_chunk,
  over_chunks, close_open, manage, dispatch, hits, exit_of, trade_of, emit, rotate, eligibility,
  take_signal, enter, open_position, side_of, start, data_end, extend,
}
use arkana.Kernel.Chunks.{concat, over_chunks-eq-over_chunk}
use arkana.Gate.{Breakdown, on_candle, on_entry, on_trade, add_to, or_warmup}
use arkana.Gate.View.{
  SameView, on_candle-SameView, on_candle-entry_regime, on_entry-on_candle, on_entry-SameView,
  on_trade-SameView, on_candle-regime_net_pnl, on_entry-regime_net_pnl, on_trade-regime_net_pnl,
}

-- The breakdown, and each trade with the regime that stood in `entry_regime` when it was filed.
abbrev pub Filed : Type 0 → Type 0
Filed A = Breakdown A × List (Trade A × Option String)

module _ {A : Type 0} ⦃n : Number A⦄ (year_of : ℕ → String)
    (decider : Option (Bar A → Bar A → Result (Option (Evaluation A)))) where
  abbrev pub file : Trade A → Filed A → Filed A
  file trade d = (on_trade year_of trade d.0, d.1 ++ ((trade, d.0.entry_regime) ∷ []))

  abbrev with_env :
      Option (Bar A → Bar A → Result (Option (Evaluation A)))
      → Option (Bar A → Bar A → Filed A → Result (Option (Evaluation A) × Filed A))
  with_env none = none
  with_env (some f) = some (λ b g d. f b g >>= λ e. ok (e, d))

  abbrev pub filing : Callbacks A (Filed A)
  filing = record {
    on_trade = some file;
    on_candle = λ candle d. (on_candle candle d.0, d.1);
    on_entry = λ candle d. (on_entry candle d.0, d.1);
    on_signal = λ candle d. d;
    signal_decider = with_env decider;
  }

  abbrev pub after : Breakdown A → List (Bar A) → Breakdown A
  after b candles = foldl (λ d candle. on_candle candle d) b candles

  after-snoc :
      (b : Breakdown A) (xs : List (Bar A)) (x : Bar A)
      → after b (xs ++ (x ∷ [])) ≡ on_candle x (after b xs)
  after-snoc b [] x = refl
  after-snoc b (y ∷ xs) x = after-snoc (on_candle y b) xs x

  module _ (first : Breakdown A) (c : Config A) where
    -- The regime of the candles before an entry bar with this timestamp, which is among `seen`.
    pub record IsDated (seen : List (Bar A)) (entry : ℕ) (regime : Option String) : Type 0 where
      pub before : List (Bar A)
      pub bar : Bar A
      pub later : List (Bar A)
      pub placed : seen ≡ before ++ (bar ∷ later)
      pub entered : entry ≡ bar.timestamp
      pub filed : regime ≡ some (or_warmup (after first before).current_regime)

    abbrev IsHeld : List (Bar A) → Option (Active A) → Option String → Type 0
    IsHeld seen none regime = Unit
    IsHeld seen (some p) regime = IsDated seen p.entry_bar.timestamp regime

    -- What the filed trades add to the buckets, each under its regime.
    abbrev pub bucketed : List (Trade A × Option String) → Dict String A
    bucketed filed =
        foldl (λ m i. add_to (or_warmup i.1) i.0.net_pnl_price m) first.regime_net_pnl filed

    bucketed-snoc :
        (filed : List (Trade A × Option String)) (m : Dict String A) (i : Trade A × Option String)
        → foldl (λ m i. add_to (or_warmup i.1) i.0.net_pnl_price m) m (filed ++ (i ∷ []))
          ≡ add_to
              (or_warmup i.1)
              i.0.net_pnl_price
              (foldl (λ m i. add_to (or_warmup i.1) i.0.net_pnl_price m) m filed)
    bucketed-snoc [] m i = refl
    bucketed-snoc (j ∷ filed) m i =
        bucketed-snoc filed (add_to (or_warmup j.1) j.0.net_pnl_price m) i

    abbrev AreDated : List (Bar A) → Filed A → Type 0
    AreDated seen d =
        All (λ (i : Trade A × Option String). IsDated seen i.0.entry_timestamp i.1) d.1
        × (d.0.regime_net_pnl ≡ bucketed d.1)

    record IsFiled (seen : List (Bar A)) (s : State A (Filed A)) : Type 0 where
      view : SameView s.env.0 (after first seen)
      held : IsHeld seen s.active s.env.0.entry_regime
      dated : AreDated seen s.env

    append_assoc : (xs ys zs : List (Bar A)) → (xs ++ ys) ++ zs ≡ xs ++ (ys ++ zs)
    append_assoc [] ys zs = refl
    append_assoc (x ∷ xs) ys zs = ap (λ t. x ∷ t) (append_assoc xs ys zs)

    IsDated-snoc :
        (seen : List (Bar A)) (candle : Bar A) (entry : ℕ) (regime : Option String)
        → IsDated seen entry regime
        → IsDated (seen ++ (candle ∷ [])) entry regime
    IsDated-snoc seen candle entry regime h = record {
      before = h.before;
      bar = h.bar;
      later = h.later ++ (candle ∷ []);
      placed =
          ap (λ xs. xs ++ (candle ∷ [])) h.placed
          ∙ append_assoc h.before (h.bar ∷ h.later) (candle ∷ []);
      entered = h.entered;
      filed = h.filed;
    }

    emit-IsFiled :
        (seen : List (Bar A)) (p : Active A) (candle : Bar A) (price : A) (reason : Reason)
        (s : State A (Filed A))
        → SameView s.env.0 (after first seen)
        → IsDated seen p.entry_bar.timestamp s.env.0.entry_regime
        → AreDated seen s.env
        → IsFiled seen
            (record (emit filing c (trade_of c p candle price reason) s) { active = none })
    unfolding emit trade_of
    emit-IsFiled seen p candle price reason s v h d = record {
      view = on_trade-SameView year_of (trade_of c p candle price reason) s.env.0 _ v;
      held = tt;
      dated =
          let trade = trade_of c p candle price reason in
          (
            All-append _ s.env.1 _ d.0 (h, tt),
            on_trade-regime_net_pnl year_of trade s.env.0
                ∙ ap (add_to (or_warmup s.env.0.entry_regime) trade.net_pnl_price) d.1
                ∙ sym (bucketed-snoc s.env.1 first.regime_net_pnl (trade, s.env.0.entry_regime)),
          );
    }

    manage-IsFiled :
        (seen : List (Bar A)) (p : Active A) (candle : Bar A) (s : State A (Filed A))
        → SameView s.env.0 (after first seen)
        → IsDated seen p.entry_bar.timestamp s.env.0.entry_regime
        → AreDated seen s.env
        → IsFiled seen (manage filing c p candle s)
    unfolding manage rotate
    manage-IsFiled seen p candle s v h d =
        elim (Option-cases (exit_of p (hits (side_of c) candle p.stop p.target))) [
          | inl stays ↦ rw (stays, manage) (record { view = v; held = h; dated = d })
          | inr ((price, reason), leaves) ↦
              let e = emit-IsFiled seen p candle price reason s v h d in
              rw (leaves, manage) (record { view = e.view; held = tt; dated = e.dated })
        ]

    open_position-entry_bar :
        (g candle : Bar A) (e : Option (Evaluation A)) (p : Active A)
        → open_position c g candle e ≡ ok p
        → p.entry_bar ≡ candle
    unfolding open_position
    open_position-entry_bar g candle e p h = ground arith

    -- After `on_candle`, with no position open: an entry would be filed under what came before.
    record IsReady (seen : List (Bar A)) (candle : Bar A) (d : Filed A) : Type 0 where
      view : SameView d.0 (after first (seen ++ (candle ∷ [])))
      regime :
          (on_entry candle d.0).entry_regime ≡ some (or_warmup (after first seen).current_regime)
      dated : AreDated (seen ++ (candle ∷ [])) d

    take_signal-IsFiled :
        (seen : List (Bar A)) (eligible : Bool) (e : Option (Evaluation A)) (g candle : Bar A)
        (s s' : State A (Filed A))
        → IsReady seen candle s.env
        → s.active ≡ none
        → take_signal filing c eligible e g candle s ≡ ok s'
        → IsFiled (seen ++ (candle ∷ [])) s'
    unfolding take_signal rotate
    take_signal-IsFiled seen false e g candle s s' r idle h =
        subst (IsFiled (seen ++ (candle ∷ []))) (ok-injective h)
          (record { view = r.view; held = rw idle tt; dated = r.dated })
    take_signal-IsFiled seen true e g candle s s' r idle h =
        let (p, opened, done) = >>=-eq-ok (open_position c g candle e) _ h in
        let entered = open_position-entry_bar g candle e p opened in
        let held : IsDated (seen ++ (candle ∷ [])) p.entry_bar.timestamp
            (on_entry candle s.env.0).entry_regime =
          record {
            before = seen;
            bar = candle;
            later = [];
            placed = refl;
            entered = ap (λ (b : Bar A). b.timestamp) entered;
            filed = r.regime;
          } in
        subst (IsFiled (seen ++ (candle ∷ []))) (ok-injective done) (
          manage-IsFiled (seen ++ (candle ∷ [])) p candle
            (record s { env = (on_entry candle s.env.0, s.env.1) })
            (on_entry-SameView candle s.env.0 _ r.view) held
            (r.dated.0, on_entry-regime_net_pnl candle s.env.0 ∙ r.dated.1))

    eligibility-env :
        (o : Option (Bar A → Bar A → Result (Option (Evaluation A)))) (b g : Bar A) (d : Filed A)
        (r : Bool × Option (Evaluation A) × Filed A)
        → filing.signal_decider ≡ with_env o
        → eligibility filing c b g d ≡ ok r
        → r.2 ≡ d
    unfolding eligibility
    eligibility-env none b g d r e h = ground arith
    eligibility-env (some f) b g d r e h =
        let ((o, d'), decided, done) = >>=-eq-ok (f b g >>= λ x. ok (x, d)) _ (rw e at h) in
        let (x, answered, same) = >>=-eq-ok (f b g) _ decided in
        sym (ap (λ (q : Bool × Option (Evaluation A) × Filed A). q.2) (ok-injective done))
        ∙ sym (ap (λ (q : Option (Evaluation A) × Filed A). q.1) (ok-injective same))

    ready :
        (seen : List (Bar A)) (candle : Bar A) (s : State A (Filed A))
        → IsFiled seen s
        → IsReady seen candle (on_candle candle s.env.0, s.env.1)
    ready seen candle s h = record {
      view =
          subst (SameView (on_candle candle s.env.0)) (sym (after-snoc first seen candle))
            (on_candle-SameView candle s.env.0 (after first seen) h.view);
      regime =
          on_entry-on_candle candle candle s.env.0 ∙ ap (λ x. some (or_warmup x)) h.view.regime;
      dated = (
        All-map s.env.1
            (λ (i : Trade A × Option String) at.
              IsDated-snoc seen candle i.0.entry_timestamp i.1 at)
            h.dated.0,
        on_candle-regime_net_pnl candle s.env.0 ∙ h.dated.1,
      );
    }

    dispatch-IsFiled :
        (seen : List (Bar A)) (candle : Bar A) (s s' : State A (Filed A))
        (active : Option (Active A)) (before signal : Option (Bar A))
        → s.active ≡ active
        → IsReady seen candle s.env
        → IsHeld seen active s.env.0.entry_regime
        → dispatch filing c candle s active before signal ≡ ok s'
        → IsFiled (seen ++ (candle ∷ [])) s'
    unfolding dispatch rotate enter extend
    dispatch-IsFiled seen candle s s' (some p) before signal a r held h =
        subst (IsFiled (seen ++ (candle ∷ []))) (ok-injective h) (
          manage-IsFiled (seen ++ (candle ∷ [])) (extend p candle) candle s r.view
            (IsDated-snoc seen candle p.entry_bar.timestamp _ held) r.dated)
    dispatch-IsFiled seen candle s s' none none signal a r held h =
        subst (IsFiled (seen ++ (candle ∷ []))) (ok-injective h)
          (record { view = r.view; held = rw a tt; dated = r.dated })
    dispatch-IsFiled seen candle s s' none (some b) none a r held h =
        subst (IsFiled (seen ++ (candle ∷ []))) (ok-injective h)
          (record { view = r.view; held = rw a tt; dated = r.dated })
    dispatch-IsFiled seen candle s s' none (some b) (some g) a r held h =
        let ((eligible, evaluation, d), decided, taken) =
          >>=-eq-ok (eligibility filing c b g s.env) _ h in
        let same = eligibility-env decider b g s.env _ refl decided in
        take_signal-IsFiled seen eligible evaluation g candle (record s { env = d }) s'
          (subst (IsReady seen candle) (sym same) r) a taken

    over_chunk-IsFiled :
        (bars seen : List (Bar A)) (s s' : State A (Filed A))
        → IsFiled seen s
        → over_chunk filing c bars s ≡ ok s'
        → IsFiled (seen ++ bars) s'
    unfolding over_chunk step
    over_chunk-IsFiled [] seen s s' h e =
        subst (λ xs. IsFiled xs s') (sym (append_nil seen))
          (subst (IsFiled seen) (ok-injective e) h)
    over_chunk-IsFiled (b ∷ bars) seen s s' h e =
        let (mid, stepped, rest) = >>=-eq-ok (step filing c s b) _ e in
        let r = ready seen b s h in
        let keeps = on_candle-entry_regime b s.env.0 in
        let held : IsHeld seen s.active (on_candle b s.env.0).entry_regime =
          subst (IsHeld seen s.active) (sym keeps) h.held in
        let one =
          dispatch-IsFiled seen b (record s { env = (on_candle b s.env.0, s.env.1) }) mid s.active
            s.before_signal s.signal refl r held stepped in
        subst (λ xs. IsFiled xs s') (append-snoc seen b bars)
          (over_chunk-IsFiled bars (seen ++ (b ∷ [])) mid s' one rest)

    close_open-AreDated :
        (seen : List (Bar A)) (s s' : State A (Filed A)) (active : Option (Active A))
        (signal : Option (Bar A))
        → IsFiled seen s
        → IsHeld seen active s.env.0.entry_regime
        → close_open filing c s active signal ≡ ok s'
        → AreDated seen s'.env
    unfolding close_open
    close_open-AreDated seen s s' none signal f h e =
        subst (λ (x : State A (Filed A)). AreDated seen x.env) (ok-injective e) f.dated
    close_open-AreDated seen s s' (some p) none f h e = cc
    close_open-AreDated seen s s' (some p) (some candle) f h e =
        let closed = emit-IsFiled seen p candle candle.close data_end s f.view h f.dated in
        subst (λ (x : State A (Filed A)). AreDated seen x.env) (ok-injective e) closed.dated

  -- When a run of the kernel with the breakdown as its callbacks ends, the buckets of the regimes are
  -- what the filed trades add to them, each under its own regime; and that is the regime that the
  -- candles before the trade's entry bar leave, or the warm-up where they leave none: neither the entry
  -- bar itself nor any later candle has a say. The decider is any that keeps no state.
  pub simulate_kernel-IsDated :
      (first : Breakdown A) (c : Config A) (chunks : List (List (Bar A))) (d : Filed A)
      (ledger : List (Trade A))
      → simulate_kernel filing c chunks (first, []) ≡ ok (d, ledger)
      → All
          (λ (i : Trade A × Option String). IsDated first c (concat chunks) i.0.entry_timestamp i.1)
          d.1
        × (d.0.regime_net_pnl ≡ bucketed first c d.1)
  unfolding simulate_kernel
  simulate_kernel-IsDated first c chunks d ledger e =
      let s₀ = start filing c (first, []) in
      let (s, ran, closing) = >>=-eq-ok (over_chunks filing c chunks s₀) _ e in
      let (s', closed, done) = >>=-eq-ok (close_open filing c s s.active s.signal) _ closing in
      let begun : IsFiled first c [] s₀ = record {
        view = record { thresholds = refl; closes = refl; regime = refl };
        held = tt;
        dated = (tt, refl);
      } in
      let f =
        over_chunk-IsFiled first c (concat chunks) [] s₀ s begun
          (sym (over_chunks-eq-over_chunk filing c chunks s₀) ∙ ran) in
      subst
        (λ (r : Filed A × List (Trade A)).
          All
            (λ (i : Trade A × Option String).
              IsDated first c (concat chunks) i.0.entry_timestamp i.1)
            r.0.1
          × (r.0.0.regime_net_pnl ≡ bucketed first c r.0.1))
        (ok-injective done)
        (close_open-AreDated first c (concat chunks) s s' s.active s.signal f f.held closed)
