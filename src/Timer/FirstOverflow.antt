-- ===== src/Timer/FirstOverflow.antt =====
-- The cycle that `tick` reports for the first overflow of a batch is the one where it happens.
use native.Mathlib.Nat.{le-div_iff_mul-le, div-le_self, mul-le-mul}
use gba_eval.Base.{
  ℕ, suc, ◌+◌, ◌-◌, ◌*◌, ◌/◌, ◌^◌, ◌<◌, ◌≤◌, ◌≡◌, ◌≢◌, ◌&&◌, leb, ltb, Bool, true, arith, ap, ◌∙◌,
  Bool-cases, inl, inr, u32, ◌↔◌, min, subst,
}
use gba_eval.Timer.{
  TimerState, TimerOverflow, enabled, run_cycles, tick_one, add_to_timer, prescaler_shift,
}
use gba_eval.Timer.Run.{run_count}
use gba_eval.Timer.Inv.{IsTimer, shift_of_bounds}
use gba_eval.Timer.Split.{
  IsDriven, started, tick_one-wait, tick_one-run, started-IsTimer, driven-enabled,
}

overflow_iff :
    (t : TimerState) (n : ℕ)
    → t.counter < 0x1_0000
    → n < 2 ^ 31 + 2 ^ 10
    → (0 < (add_to_timer t n).1) ↔ (0x1_0000 ≤ t.counter + n)
unfolding add_to_timer
overflow_iff t n h k = ground arith

module _ (t : TimerState) (v : IsTimer t) (on : enabled t ≡ true) where
  abbrev m : ℕ
  m = 2 ^ prescaler_shift t

  -- Cycles of the prescaler up to the overflow, counted from the start of its period.
  abbrev left : ℕ
  left = (0x1_0000 - t.counter) * m

  abbrev later_ticks : ℕ
  later_ticks = (0x1_0000 - t.counter - 1) * m

  left-sum : left ≡ later_ticks + m
  left-sum =
      let next : 0x1_0000 - t.counter ≡ suc (0x1_0000 - t.counter - 1) =
        omega (arith, v.counter_in) in
      ap (λ (x : ℕ). x * m) next ∙ omega arith

  later_ticks-le : later_ticks ≤ 0xffff * 1024
  later_ticks-le = mul-le-mul {n₂ = 0xffff} (omega arith) (shift_of_bounds t.control).1

  run_overflows_iff :
      (c d e : ℕ)
      → e < 2 ^ 31
      → (0 < (run_cycles c d e t).1.count) ↔ (left ≤ t.prescaler_counter + e)
  run_overflows_iff c d e h =
      let total : u32 (t.prescaler_counter + e) ≡ t.prescaler_counter + e =
        omega (arith, v.phase_small) in
      let counted =
        run_count c d e t v.counter_in ∙ ap (λ (x : ℕ). (add_to_timer t (x / m)).1) total in
      let few : (t.prescaler_counter + e) / m ≤ t.prescaler_counter + e = div-le_self _ m in
      let over =
        overflow_iff t ((t.prescaler_counter + e) / m) v.counter_in
          (omega (arith, few, v.phase_small)) in
      let reach =
        le-div_iff_mul-le {k = m} {x = 0x1_0000 - t.counter} {y = t.prescaler_counter + e}
          (shift_of_bounds t.control).0 in
      (
        λ p. reach.0 (omega (arith, over.0 (omega (arith, counted)))),
        λ q. omega (arith, counted, over.1 (omega (arith, reach.1 q, v.counter_in))),
      )

  run_first :
      (c d e : ℕ)
      → d ≤ 2
      → 0 < (run_cycles c d e t).1.count
      → (run_cycles c d e t).1.first_cycle ≡ min (d + left - t.prescaler_counter) c
  unfolding run_cycles
  run_first c d e k p =
      ground (arith, left-sum, later_ticks-le, shift_of_bounds t.control, v.phase_in on)

-- If a batch makes a timer overflow, then a batch of `k` cycles of it does so exactly when it
-- reaches the reported first cycle.
pub first_cycle_exact :
    (cycles k : ℕ) (t : TimerState)
    → IsTimer t
    → IsDriven t
    → cycles < 2 ^ 31
    → k ≤ cycles
    → 0 < (tick_one cycles t).1.count
    → (0 < (tick_one k t).1.count) ↔ ((tick_one cycles t).1.first_cycle ≤ k)
first_cycle_exact cycles k t v on h le p = elim (Bool-cases waits_all) [
  | inl all ↦ absurd (
      omega (
        arith,
        ap (λ (r : TimerState × TimerOverflow). r.1.count)
            (tick_one-wait cycles t on (ground arith) (ground arith)),
      ))
  | inr run ↦ exact (tick_one-run cycles t on (λ ne. ground arith)) (λ ne. ground arith)
]
  where
    s : TimerState
    s = started t

    vs : IsTimer s
    vs = started-IsTimer v

    en : enabled s ≡ true
    en = driven-enabled t on

    d : ℕ
    d = t.startup_delay

    waits_all : Bool
    waits_all = ltb 0 d && leb cycles d

    exact :
        tick_one cycles t ≡ run_cycles cycles d (cycles - d) s
        → (d ≢ 0 → d < cycles)
        → (0 < (tick_one k t).1.count) ↔ ((tick_one cycles t).1.first_cycle ≤ k)
    exact e before =
        let p' : 0 < (run_cycles cycles d (cycles - d) s).1.count =
          subst (λ (r : TimerState × TimerOverflow). 0 < r.1.count) e p in
        let reached = (run_overflows_iff s vs en cycles d (cycles - d) (omega arith)).0 p' in
        let first = run_first s vs en cycles d (cycles - d) v.delay_in p' in
        elim (Bool-cases (ltb 0 d && leb k d)) [
          | inl waits ↦
              rw (e, first, tick_one-wait k t on (ground arith) (ground arith))
                (
                  λ none. elim none [ ],
                  λ early. ground (arith, left-sum s vs en, vs.phase_in en, reached),
                )
          | inr runs ↦
              rw (e, first, tick_one-run k t on (λ ne. ground arith))
                (
                  λ over.
                      ground (arith, (run_overflows_iff s vs en k d (k - d) (omega arith)).0 over),
                  λ early.
                      (run_overflows_iff s vs en k d (k - d) (omega arith)).1
                        (ground (arith, left-sum s vs en, vs.phase_in en, reached)),
                )
        ]
