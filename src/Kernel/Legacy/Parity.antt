-- ===== src/Kernel/Legacy/Parity.antt =====
-- The kernel and the loop that it replaced give the same ledger.
use arkana.Base.{
  ℕ, zero, suc, ◌≤◌, ◌<◌, ◌≡◌, refl, ◌∙◌, ap, true, false, Option, none, some, List, [], ◌∷◌, ◌++◌,
  Result, ok, ◌>>=◌, >>=-ok, arith, length, Number, max_of, min_of, Bool-cases, inl, inr,
}
use arkana.Market.{Bar}
use arkana.Kernel.{
  Callbacks, Config, Trade, State, Active, long, side_of, simulate_kernel, step, over_chunk,
  over_chunks, close_open, start, manage, extend, dispatch, hits, exit_of, trade_of, emit, rotate,
  enter, open_position, is_reversal,
}
use arkana.Kernel.Legacy.{
  Exit, no_callbacks, simulate, scan, legacy_trade, legacy_exit, legacy_loop, simulate_legacy,
}

module _ {A : Type 0} ⦃n : Number A⦄ where
  -- The bars that the inner loop leaves are no more than those it was given.
  length-scan :
      (stop target h l : A) (last : Bar A) (bars : List (Bar A))
      → length (scan stop target h l last bars).rest ≤ length bars
  unfolding scan
  length-scan stop target h l last [] = omega arith
  length-scan stop target h l last (b ∷ bars) =
      ground (arith, length-scan stop target (max_of h b.high) (min_of l b.low) b bars)

  length-scan_cons :
      (stop target h l : A) (last b : Bar A) (bars : List (Bar A))
      → length (scan stop target h l last (b ∷ bars)).rest ≤ length bars
  unfolding scan
  length-scan_cons stop target h l last b bars =
      ground (arith, length-scan stop target (max_of h b.high) (min_of l b.low) b bars)

  extend_self :
      (p : Active A) (b : Bar A) → p.max_high ≡ b.high → p.min_low ≡ b.low → extend p b ≡ p
  unfolding extend
  extend_self p b h l = ground arith

  -- The trade that an open position becomes at the exit that `scan` finds.
  abbrev settled : Config A → Active A → Exit A → Trade A
  settled c p e =
      trade_of c (record p { max_high = e.max_high; min_low = e.min_low }) e.exit_bar e.exit_price
        e.reason

  -- The position that the kernel opens on `entry_bar` without a decider.
  abbrev opened : Config A → Bar A → Bar A → Active A
  opened c signal entry_bar =
      let entry = n.add entry_bar.open_price c.spread_price in
      record {
        signal = signal;
        entry_bar = entry_bar;
        entry = entry;
        stop = n.sub entry c.stop_distance;
        target = n.add entry c.target_distance;
        max_high = entry_bar.high;
        min_low = entry_bar.low;
        rule_evaluation = none;
      }

  settled-eq-legacy_trade :
      (c : Config A) (signal b : Bar A) (e : Exit A)
      → side_of c ≡ long
      → let p = opened c signal b in
        settled c p e ≡ legacy_trade c signal b p.entry p.stop p.target e
  unfolding trade_of legacy_trade
  settled-eq-legacy_trade c signal b e is_long = rw is_long

module _ {A : Type 0} ⦃n : Number A⦄ {D : Type 0} (c : Config A) (is_long : side_of c ≡ long) where
  abbrev cb : Callbacks A D
  cb = no_callbacks none

  abbrev drive : List (Bar A) → State A D → Result (D × List (Trade A))
  drive bars s = over_chunk cb c bars s >>= λ s.
      close_open cb c s s.active s.signal >>= λ s'. ok (s'.env, s'.trades)

  abbrev st : D → Option (Bar A) → Option (Bar A) → Option (Active A) → List (Trade A) → State A D
  st d before signal active trades = record {
    env = d;
    trades = trades;
    before_signal = before;
    signal = signal;
    active = active;
  }

  drive_active :
      (d : D) (p : Active A) (before : Option (Bar A)) (last : Bar A) (bars : List (Bar A))
      (trades : List (Trade A))
      → let e = scan p.stop p.target p.max_high p.min_low last bars in
        drive bars (st d before (some last) (some p) trades)
        ≡ drive e.rest (st d none (some e.exit_bar) none (trades ++ (settled c p e ∷ [])))
  unfolding scan over_chunk close_open step extend hits exit_of manage emit rotate
  drive_active d p before last [] trades = refl
  drive_active d p before last (b ∷ bars) trades =
      ground (arith, drive_active d (extend p b) (some last) b bars trades)

  -- On a reversal the kernel goes on as if the position had been open before its entry candle.
  step-reversal :
      (d : D) (previous signal b : Bar A) (trades : List (Trade A))
      → is_reversal previous signal ≡ true
      → step cb c (st d (some previous) (some signal) none trades) b
        ≡ step cb c (st d (some previous) (some signal) (some (opened c signal b)) trades) b
  unfolding step dispatch enter open_position manage rotate emit extend
  step-reversal d previous signal b trades h =
      rw (h, is_long, extend_self (opened c signal b) b refl refl)

  -- The loop ends with a ledger, and the kernel with that ledger.
  abbrev Agree : D → Option (List (Trade A)) → Result (D × List (Trade A)) → Type 0
  Agree d o r = (ledger : List (Trade A)) × (o ≡ some ledger) × (r ≡ ok (d, ledger))

  abbrev LoopAgrees : D → ℕ → Type 0
  LoopAgrees d fuel =
      (previous signal : Bar A) (bars : List (Bar A)) (trades : List (Trade A))
      → length bars < fuel
      → Agree d (legacy_loop c fuel (previous ∷ signal ∷ bars) trades)
          (drive bars (st d (some previous) (some signal) none trades))

  -- After an exit the kernel's window holds the exit candle alone.
  after_exit :
      (d : D) (fuel : ℕ) (x : Bar A) (bars : List (Bar A)) (trades : List (Trade A))
      → LoopAgrees d fuel
      → length bars ≤ fuel
      → 0 < fuel
      → Agree d (legacy_loop c fuel (x ∷ bars) trades) (drive bars (st d none (some x) none trades))
  unfolding legacy_loop over_chunk close_open step dispatch rotate
  after_exit d zero x bars trades agrees h pos = absurd (omega arith)
  after_exit d (suc fuel) x [] trades agrees h pos = (trades, refl, refl)
  after_exit d (suc fuel) x (y ∷ bars) trades agrees h pos = agrees x y bars trades h

  drive-reversal :
      (d : D) (previous signal b : Bar A) (bars : List (Bar A)) (trades : List (Trade A))
      → is_reversal previous signal ≡ true
      → let p = opened c signal b in
        let e = legacy_exit c b bars in
        drive (b ∷ bars) (st d (some previous) (some signal) none trades)
        ≡ drive e.rest (
            st d none
              (some e.exit_bar)
              none
              (trades ++ (legacy_trade c signal b p.entry p.stop p.target e ∷ [])))
  unfolding over_chunk close_open legacy_exit scan
  drive-reversal d previous signal b bars trades h =
      rw (step-reversal d previous signal b trades h) (
        drive_active d (opened c signal b) (some previous) signal (b ∷ bars) trades
        ∙ ap
            (λ t.
              drive (legacy_exit c b bars).rest
                (st d none (some (legacy_exit c b bars).exit_bar) none (trades ++ (t ∷ []))))
            (settled-eq-legacy_trade c signal b (legacy_exit c b bars) is_long))

  step-no_reversal :
      (d : D) (previous signal b : Bar A) (trades : List (Trade A))
      → is_reversal previous signal ≡ false
      → step cb c (st d (some previous) (some signal) none trades) b
        ≡ ok (st d (some signal) (some b) none trades)
  unfolding step dispatch enter rotate
  step-no_reversal d previous signal b trades h = rw h

  loop_parity : (d : D) (fuel : ℕ) → LoopAgrees d fuel
  unfolding legacy_loop over_chunk close_open is_reversal legacy_exit
  loop_parity d zero previous signal bars trades h = elim h [ ]
  loop_parity d (suc fuel) previous signal [] trades h = (trades, refl, refl)
  loop_parity d (suc fuel) previous signal (b ∷ bars) trades h =
      elim (Bool-cases (is_reversal previous signal)) [
        | inl bullish ↦
            let p = opened c signal b in
            let e = legacy_exit c b bars in
            let t = legacy_trade c signal b p.entry p.stop p.target e in
            let (ledger, by_loop, by_kernel) =
              after_exit d fuel e.exit_bar e.rest (trades ++ (t ∷ [])) (loop_parity d fuel)
                (omega (arith, length-scan_cons p.stop p.target b.high b.low b b bars))
                (omega arith) in
            (
              ledger,
              rw (bullish, legacy_loop) by_loop,
              drive-reversal d previous signal b bars trades bullish ∙ by_kernel,
            )
        | inr other ↦
            let (ledger, by_loop, by_kernel) =
              loop_parity d fuel signal b bars trades (omega arith) in
            (
              ledger,
              rw (other, legacy_loop) by_loop,
              rw (step-no_reversal d previous signal b trades other) by_kernel,
            )
      ]

  simulate-eq-drive :
      (bars : List (Bar A)) (d : D) → simulate bars c none d ≡ drive bars (start cb c d)
  unfolding simulate simulate_kernel over_chunks
  simulate-eq-drive bars d = rw (>>=-ok (over_chunk cb c bars (start cb c d)))

  -- A LONG configuration without a decider gives the ledger of the legacy loop, which the fuel of one
  -- round for each bar is enough for; neither raises, and the environment is as it was.
  pub simulate-eq-simulate_legacy :
      (bars : List (Bar A)) (d : D)
      → (ledger : List (Trade A)) × (simulate_legacy bars c ≡ some ledger)
        × (simulate bars c none d ≡ ok (d, ledger))
  unfolding over_chunk simulate_legacy legacy_loop close_open step dispatch rotate
  simulate-eq-simulate_legacy [] d = ([], refl, simulate-eq-drive [] d)
  simulate-eq-simulate_legacy (x ∷ []) d = ([], refl, simulate-eq-drive (x ∷ []) d)
  simulate-eq-simulate_legacy (x ∷ y ∷ bars) d =
      let (ledger, by_loop, by_kernel) =
        loop_parity d (suc (length (x ∷ y ∷ bars))) x y bars [] (omega arith) in
      (ledger, by_loop, simulate-eq-drive (x ∷ y ∷ bars) d ∙ by_kernel)
