-- ===== src/Timer/Batches.antt =====
-- The prescaler and the counter over two batches, one after the other.
use native.Mathlib.Nat.{mod-add-div', add-mul-div_right, mod-add-mod, div-le_self}
use gba_eval.Base.{
  ℕ, zero, suc, ◌+◌, ◌*◌, ◌/◌, ◌%◌, ◌^◌, ◌<◌, ◌≤◌, ◌≡◌, refl, arith, ap, ap₂, ◌∙◌, sym, iterate,
  u32,
}
use gba_eval.Timer.{TimerState, TimerOverflow, prescaler_shift, add_to_timer, run_cycles}
use gba_eval.Timer.Ticks.{tick_up, add_to_timer_iterated}
use gba_eval.Timer.Run.{run_state, run_count, add_to_timer-congr}
use gba_eval.Timer.Inv.{IsTimer, shift_of_bounds, add_to_timer-lt}

-- Overflows that came before are only added.
tick_up-offset :
    (r k c n : ℕ)
    → iterate k (tick_up r) (c, n)
      ≡ ((iterate k (tick_up r) (c, 0)).0, n + (iterate k (tick_up r) (c, 0)).1)
tick_up-offset r zero c n = ground arith
tick_up-offset r (suc k) c n = ground (arith, tick_up-offset r k c n)

iterate-add :
    (r k m : ℕ) (s : ℕ × ℕ)
    → iterate (k + m) (tick_up r) s ≡ iterate m (tick_up r) (iterate k (tick_up r) s)
iterate-add r k zero s =
    let e : k + 0 ≡ k = omega arith in ap (λ (j : ℕ). iterate j (tick_up r) s) e
iterate-add r k (suc m) s =
    let e : k + suc m ≡ suc (k + m) = omega arith in
    ap (λ (j : ℕ). iterate j (tick_up r) s) e ∙ ap (tick_up r) (iterate-add r k m s)

module _ (t : TimerState) (c-lt : t.counter < 0x1_0000) (r-lt : t.reload < 0x1_0000) where
  -- Ticks in two batches.
  add_to_timer-add :
      (k m : ℕ)
      → k + m < 0xffff_0000
      → let (c, n) = add_to_timer t k in
        let (c', n') = add_to_timer (record t { counter = c }) m in
        add_to_timer t (k + m) ≡ (c', n + n')
  add_to_timer-add k m h =
      let (c, n) = add_to_timer t k in
      add_to_timer_iterated t c-lt r-lt (k + m) h
      ∙ iterate-add t.reload k m (t.counter, 0)
      ∙ ap (iterate m (tick_up t.reload)) (sym (add_to_timer_iterated t c-lt r-lt k (omega arith)))
      ∙ tick_up-offset t.reload m c n
      ∙ ap {B = ℕ × ℕ} (λ (s : ℕ × ℕ). (s.0, n + s.1))
          (sym (
            add_to_timer_iterated (record t { counter = c }) (add_to_timer-lt t k) r-lt m
              (omega arith)))

-- A quotient and a remainder in two steps.
div-add_split : (x y m : ℕ) → 0 < m → (x + y) / m ≡ x / m + (x % m + y) / m
div-add_split x y m h =
    let whole : x + y ≡ x % m + y + x / m * m = omega (arith, mod-add-div' x m) in
    ap (λ (s : ℕ). s / m) whole ∙ add-mul-div_right (x % m + y) (x / m) h ∙ omega arith

-- Two runs of the prescaler and the counter, one after the other.
module _ (c o a c' b c'' : ℕ) (t : TimerState) (v : IsTimer t) (h : a + b < 2 ^ 31) where
  abbrev first : TimerState × TimerOverflow
  first = run_cycles c o a t

  abbrev second : TimerState × TimerOverflow
  second = run_cycles c' 0 b first.0

  abbrev both : TimerState × TimerOverflow
  both = run_cycles c'' o (a + b) t

  abbrev m : ℕ
  m = 2 ^ prescaler_shift t

  abbrev phase : ℕ
  phase = (t.prescaler_counter + a) % m

  abbrev k : ℕ
  k = (t.prescaler_counter + a) / m

  abbrev j : ℕ
  j = (phase + b) / m

  abbrev between : TimerState
  between = record t { prescaler_counter = phase; counter = (add_to_timer t k).0 }

  no_wrap : u32 (t.prescaler_counter + a) ≡ t.prescaler_counter + a
  no_wrap = omega (arith, v.phase_small)

  no_wrap_both : u32 (t.prescaler_counter + (a + b)) ≡ t.prescaler_counter + a + b
  no_wrap_both = omega (arith, v.phase_small)

  no_wrap_second : u32 (phase + b) ≡ phase + b
  no_wrap_second = omega (arith, shift_of_bounds t.control)

  first-between : first.0 ≡ between
  first-between =
      run_state c o a t v.counter_in
      ∙ ap (λ (x : ℕ). record t { prescaler_counter = x % m; counter = (add_to_timer t (x / m)).0 })
          no_wrap

  quotient : u32 (t.prescaler_counter + (a + b)) / m ≡ k + j
  quotient =
      ap (λ (x : ℕ). x / m) no_wrap_both
      ∙ div-add_split (t.prescaler_counter + a) b m (shift_of_bounds t.control).0

  remainder : u32 (t.prescaler_counter + (a + b)) % m ≡ (phase + b) % m
  remainder = ap (λ (x : ℕ). x % m) no_wrap_both ∙ sym (mod-add-mod (t.prescaler_counter + a) m b)

  few_ticks : k + j < 0xffff_0000
  few_ticks =
      let less : (t.prescaler_counter + a + b) / m ≤ t.prescaler_counter + a + b =
        div-le_self _ m in
      omega (arith, quotient, ap (λ (x : ℕ). x / m) no_wrap_both, less, v.phase_small)

  counted :
      let (n', over) = add_to_timer between j in
      add_to_timer t (k + j) ≡ (n', (add_to_timer t k).1 + over)
  counted =
      add_to_timer-add t v.counter_in v.reload_in k j few_ticks
      ∙ ap {B = ℕ × ℕ} (λ (s : ℕ × ℕ). (s.0, (add_to_timer t k).1 + s.1))
          (add_to_timer-congr (record t { counter = (add_to_timer t k).0 }) between j refl refl)

  second-state :
      second.0
      ≡ record t { prescaler_counter = (phase + b) % m; counter = (add_to_timer between j).0 }
  second-state =
      ap (λ (u : TimerState). (run_cycles c' 0 b u).0) first-between
      ∙ run_state c' 0 b between (add_to_timer-lt t k)
      ∙ ap
          (λ (x : ℕ). record t {
            prescaler_counter = x % m;
            counter = (add_to_timer between (x / m)).0;
          })
          no_wrap_second

  second-count : second.1.count ≡ (add_to_timer between j).1
  second-count =
      ap (λ (u : TimerState). (run_cycles c' 0 b u).1.count) first-between
      ∙ run_count c' 0 b between (add_to_timer-lt t k)
      ∙ ap (λ (x : ℕ). (add_to_timer between (x / m)).1) no_wrap_second

  pub run_cycles-add : (both.0 ≡ second.0) × (both.1.count ≡ first.1.count + second.1.count)
  run_cycles-add = (
    run_state c'' o (a + b) t v.counter_in
        ∙ ap₂ (λ (x y : ℕ). record t { prescaler_counter = x; counter = (add_to_timer t y).0 })
            remainder quotient
        ∙ ap (λ (s : ℕ × ℕ). record t { prescaler_counter = (phase + b) % m; counter = s.0 })
            counted
        ∙ sym second-state,
    omega (
      arith,
      run_count c'' o (a + b) t v.counter_in,
      ap (λ (x : ℕ). (add_to_timer t x).1) quotient,
      ap (λ (s : ℕ × ℕ). s.1) counted,
      second-count,
      run_count c o a t v.counter_in,
      ap (λ (x : ℕ). (add_to_timer t (x / m)).1) no_wrap,
    ),
  )
