-- ===== src/LevelTouch/Tally/Counts.antt =====
-- What the counts of a tally are, whatever cases were added to it.
use arkana.Base.{
  ℕ, ◌+◌, ◌≡◌, refl, sym, ◌∙◌, append_nil, append-snoc, Bool, List, [], ◌∷◌, ◌++◌, ◌==◌, arith,
  length, Number, if◌then◌else◌,
}
use arkana.LevelTouch.{Verdict}
use arkana.LevelTouch.Tally.{Tally, new_tally, add, read}

abbrev pub add_cases : List (Verdict × ℕ) → Tally → Tally
add_cases [] t = t
add_cases ((verdict, steps) ∷ cases) t = add_cases cases (add t verdict steps)

abbrev pub is_target : Verdict → ℕ
is_target Verdict.target = 1
is_target _ = 0

abbrev pub is_stop : Verdict → ℕ
is_stop Verdict.stop = 1
is_stop _ = 0

abbrev pub is_timeout : Verdict → ℕ
is_timeout Verdict.timeout = 1
is_timeout _ = 0

abbrev pub is_data_end : Verdict → ℕ
is_data_end Verdict.data_end = 1
is_data_end _ = 0

abbrev pub count_of : (Verdict → ℕ) → List (Verdict × ℕ) → ℕ
count_of f [] = 0
count_of f ((verdict, steps) ∷ cases) = f verdict + count_of f cases

-- The steps of the cases of one verdict, in their order.
abbrev pub steps_of : (Verdict → ℕ) → List (Verdict × ℕ) → List ℕ
steps_of f [] = []
steps_of f ((verdict, steps) ∷ cases) =
    if f verdict == 1 then steps ∷ steps_of f cases else steps_of f cases

record IsCounted (before : Tally) (cases : List (Verdict × ℕ)) (t : Tally) : Type 0 where
  targets : t.target ≡ before.target + count_of is_target cases
  stops : t.stop ≡ before.stop + count_of is_stop cases
  timeouts : t.timeout ≡ before.timeout + count_of is_timeout cases
  ends : t.data_end ≡ before.data_end + count_of is_data_end cases
  to_target : t.bars_to_target ≡ before.bars_to_target ++ steps_of is_target cases
  to_stop : t.bars_to_stop ≡ before.bars_to_stop ++ steps_of is_stop cases

count_of-split :
    (cases : List (Verdict × ℕ))
    → count_of is_target cases
        + count_of is_stop cases
        + count_of is_timeout cases
        + count_of is_data_end cases
      ≡ length cases
count_of-split [] = refl
count_of-split ((Verdict.target, steps) ∷ cases) = omega (arith, count_of-split cases)
count_of-split ((Verdict.stop, steps) ∷ cases) = omega (arith, count_of-split cases)
count_of-split ((Verdict.timeout, steps) ∷ cases) = omega (arith, count_of-split cases)
count_of-split ((Verdict.data_end, steps) ∷ cases) = omega (arith, count_of-split cases)

add_cases-IsCounted :
    (cases : List (Verdict × ℕ)) (t : Tally) → IsCounted t cases (add_cases cases t)
unfolding add
add_cases-IsCounted [] t = record {
  targets = omega arith;
  stops = omega arith;
  timeouts = omega arith;
  ends = omega arith;
  to_target = sym (append_nil t.bars_to_target);
  to_stop = sym (append_nil t.bars_to_stop);
}
add_cases-IsCounted ((Verdict.target, steps) ∷ cases) t =
    let h = add_cases-IsCounted cases (add t Verdict.target steps) in
    record {
      targets = omega (arith, h.targets);
      stops = omega (arith, h.stops);
      timeouts = omega (arith, h.timeouts);
      ends = omega (arith, h.ends);
      to_target = h.to_target ∙ append-snoc t.bars_to_target steps (steps_of is_target cases);
      to_stop = h.to_stop;
    }
add_cases-IsCounted ((Verdict.stop, steps) ∷ cases) t =
    let h = add_cases-IsCounted cases (add t Verdict.stop steps) in
    record {
      targets = omega (arith, h.targets);
      stops = omega (arith, h.stops);
      timeouts = omega (arith, h.timeouts);
      ends = omega (arith, h.ends);
      to_target = h.to_target;
      to_stop = h.to_stop ∙ append-snoc t.bars_to_stop steps (steps_of is_stop cases);
    }
add_cases-IsCounted ((Verdict.timeout, steps) ∷ cases) t =
    let h = add_cases-IsCounted cases (add t Verdict.timeout steps) in
    record {
      targets = omega (arith, h.targets);
      stops = omega (arith, h.stops);
      timeouts = omega (arith, h.timeouts);
      ends = omega (arith, h.ends);
      to_target = h.to_target;
      to_stop = h.to_stop;
    }
add_cases-IsCounted ((Verdict.data_end, steps) ∷ cases) t =
    let h = add_cases-IsCounted cases (add t Verdict.data_end steps) in
    record {
      targets = omega (arith, h.targets);
      stops = omega (arith, h.stops);
      timeouts = omega (arith, h.timeouts);
      ends = omega (arith, h.ends);
      to_target = h.to_target;
      to_stop = h.to_stop;
    }

-- After any cases, `read` reports as target first, stop first, unresolved and beyond the data exactly
-- the cases of those verdicts, and as events all cases but those that the data cut off; the steps kept
-- for the targets and for the stops are those of the target cases and of the stop cases, in their order.
pub read-add_cases :
    (A : Type 0) ⦃n : Number A⦄ (cases : List (Verdict × ℕ)) (timing : Bool)
    → let t = add_cases cases new_tally in
      let r = read {A = A} t timing in
      (r.events + count_of is_data_end cases ≡ length cases)
      × (r.target_first ≡ count_of is_target cases)
      × (r.stop_first ≡ count_of is_stop cases)
      × (r.unresolved ≡ count_of is_timeout cases)
      × (r.beyond_data ≡ count_of is_data_end cases)
      × (t.bars_to_target ≡ steps_of is_target cases)
      × (t.bars_to_stop ≡ steps_of is_stop cases)
unfolding read
read-add_cases A cases timing =
    let h = add_cases-IsCounted cases new_tally in
    (
      omega (arith, h.targets, h.stops, h.timeouts, count_of-split cases),
      omega (arith, h.targets),
      omega (arith, h.stops),
      omega (arith, h.timeouts),
      omega (arith, h.ends),
      h.to_target,
      h.to_stop,
    )
