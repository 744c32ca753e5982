-- ===== src/Timer/Split.antt =====
-- A batch of cycles may be split anywhere: one call of `tick` is the same as two.
use gba_eval.Base.{
  ℕ, ◌+◌, ◌-◌, ◌/◌, ◌%◌, ◌^◌, ◌<◌, ◌≤◌, ◌≡◌, ◌≢◌, refl, ◌==◌, ◌&&◌, ◌||◌, not, leb, ltb, true,
  false, arith, ap, ap₂, ◌∙◌, sym, Bool-cases, inl, inr, u32, ==_iff,
}
use native.Mathlib.Nat.{div-eq_of_lt, mod-eq_of_lt}
use gba_eval.Timer.{
  TimerState, no_overflow, enabled, cascade, run_cycles, tick_one, prescaler_shift,
}
use gba_eval.Timer.Run.{run_state, run_count}
use gba_eval.Timer.Batches.{run_cycles-add}
use gba_eval.Timer.Inv.{IsTimer}

-- A timer that the first loop of `tick` drives.
abbrev pub IsDriven : TimerState → Type 0
IsDriven t = (not (enabled t) || cascade t) ≡ false

abbrev pub started : TimerState → TimerState
started t = record t { startup_delay = 0 }

pub tick_one-idle :
    (c : ℕ) (t : TimerState)
    → (not (enabled t) || cascade t) ≡ true
    → tick_one c t ≡ (t, no_overflow)
unfolding tick_one
tick_one-idle c t h = rw h

pub tick_one-wait :
    (c : ℕ) (t : TimerState)
    → IsDriven t
    → 0 < t.startup_delay
    → c ≤ t.startup_delay
    → tick_one c t ≡ (record t { startup_delay = t.startup_delay - c }, no_overflow)
unfolding tick_one
tick_one-wait c t h p q = ground arith

pub tick_one-run :
    (c : ℕ) (t : TimerState)
    → IsDriven t
    → (t.startup_delay ≢ 0 → t.startup_delay < c)
    → tick_one c t ≡ run_cycles c t.startup_delay (c - t.startup_delay) (started t)
unfolding tick_one
tick_one-run c t h p = ground arith

pub started-IsTimer : {t : TimerState} → IsTimer t → IsTimer (started t)
started-IsTimer v = record {
  counter_in = v.counter_in;
  reload_in = v.reload_in;
  delay_in = omega arith;
  phase_small = v.phase_small;
  phase_in = v.phase_in;
}

-- The batch and the offset only place the first overflow.
run_cycles-congr :
    (c d c' d' e : ℕ) (t : TimerState)
    → IsTimer t
    → ((run_cycles c d e t).0 ≡ (run_cycles c' d' e t).0)
      × ((run_cycles c d e t).1.count ≡ (run_cycles c' d' e t).1.count)
run_cycles-congr c d c' d' e t v = (
  run_state c d e t v.counter_in ∙ sym (run_state c' d' e t v.counter_in),
  run_count c d e t v.counter_in ∙ sym (run_count c' d' e t v.counter_in),
)

tick_one-started :
    (b : ℕ) (u : TimerState) → IsDriven u → u.startup_delay ≡ 0 → tick_one b u ≡ run_cycles b 0 b u
tick_one-started b u h e =
    let same : started u ≡ u = λ i. record u { startup_delay = sym e i } in
    let whole : b - 0 ≡ b = omega arith in
    tick_one-run b u h (λ ne. absurd (ne e))
    ∙ ap₂ (λ (d : ℕ) (w : TimerState). run_cycles b d (b - d) w) e same
    ∙ ap (λ (x : ℕ). run_cycles b 0 x u) whole

-- No cycles change nothing.
run_cycles-zero :
    (c d : ℕ) (t : TimerState)
    → IsTimer t
    → enabled t ≡ true
    → ((run_cycles c d 0 t).0 ≡ t) × ((run_cycles c d 0 t).1.count ≡ 0)
unfolding run_cycles
run_cycles-zero c d t v on =
    let phase = v.phase_in on in
    let none : u32 (t.prescaler_counter + 0) / 2 ^ prescaler_shift t ≡ 0 =
      div-eq_of_lt (omega (arith, v.phase_small, phase)) in
    let rest : u32 (t.prescaler_counter + 0) % 2 ^ prescaler_shift t ≡ t.prescaler_counter =
      ap (λ (x : ℕ). x % 2 ^ prescaler_shift t) (omega (arith, v.phase_small))
      ∙ mod-eq_of_lt phase in
    ground (arith, none, rest)

-- After a run the timer is driven still, with no delay left.
ran-tick :
    (c d e b : ℕ) (t : TimerState)
    → IsTimer t
    → IsDriven t
    → let ran = (run_cycles c d e (started t)).0 in tick_one b ran ≡ run_cycles b 0 b ran
ran-tick c d e b t v h =
    let s = run_state c d e (started t) v.counter_in in
    tick_one-started b (run_cycles c d e (started t)).0
      (ap (λ (u : TimerState). not (enabled u) || cascade u) s ∙ h)
      (ap (λ (u : TimerState). u.startup_delay) s)

pub driven-enabled : (t : TimerState) → IsDriven t → enabled t ≡ true
driven-enabled t h = ground arith

-- The three ways in which the delay and the two batches lie.
module _ (a b : ℕ) (t : TimerState) (v : IsTimer t) (h : a + b < 2 ^ 31) (on : IsDriven t) where
  abbrev Adds : Type 0
  Adds =
      ((tick_one (a + b) t).0 ≡ (tick_one b (tick_one a t).0).0)
      × ((tick_one (a + b) t).1.count
          ≡ (tick_one a t).1.count + (tick_one b (tick_one a t).0).1.count)

  abbrev d : ℕ
  d = t.startup_delay

  first_runs : (d ≢ 0 → d < a) → Adds
  first_runs p =
      let e : a + b - d ≡ a - d + b = ground (arith, p) in
      rw
        (
          tick_one-run (a + b) t on (λ ne. ground (arith, p ne)),
          tick_one-run a t on p,
          ran-tick a d (a - d) b t v on,
          e,
        )
        (run_cycles-add a d (a - d) b b (a + b) (started t) (started-IsTimer v) (omega arith))

  both_wait : 0 < d → a + b ≤ d → Adds
  both_wait p q = elim (Bool-cases (d == a)) [
    | inl over ↦
        let b0 : b ≡ 0 = omega (arith, (==_iff d a).0 over) in
        let left : d - a ≡ 0 = omega (arith, (==_iff d a).0 over) in
        let waited : TimerState = record t { startup_delay = d - a } in
        let none : ((run_cycles b 0 0 waited).0 ≡ waited)
            × ((run_cycles b 0 0 waited).1.count ≡ 0) =
          run_cycles-zero b 0 waited (waited-IsTimer (d - a) (omega (arith, v.delay_in)))
            (driven-enabled t on) in
        let idle : tick_one b waited ≡ run_cycles b 0 0 waited =
          tick_one-started b waited on left ∙ ap (λ (x : ℕ). run_cycles b 0 x waited) b0 in
        let total : d - (a + b) ≡ d - a = omega (arith, b0) in
        rw (tick_one-wait (a + b) t on p q, tick_one-wait a t on p (omega arith), idle, total)
          (sym none.0, omega (arith, none.1))
    | inr before ↦
        let total : d - (a + b) ≡ d - a - b = omega arith in
        rw
          (
            tick_one-wait (a + b) t on p q,
            tick_one-wait a t on p (omega arith),
            tick_one-wait b (record t { startup_delay = d - a }) on (ground arith) (omega arith),
            total,
          )
          (refl, refl)
  ]
    where
      waited-IsTimer : (k : ℕ) → k ≤ 2 → IsTimer (record t { startup_delay = k })
      waited-IsTimer k le = record {
        counter_in = v.counter_in;
        reload_in = v.reload_in;
        delay_in = le;
        phase_small = v.phase_small;
        phase_in = v.phase_in;
      }

  second_runs : 0 < d → a ≤ d → d < a + b → Adds
  second_runs p q r =
      let e : b - (d - a) ≡ a + b - d = omega arith in
      rw
        (
          tick_one-run (a + b) t on (λ ne. r),
          tick_one-wait a t on p q,
          tick_one-run b (record t { startup_delay = d - a }) on (λ ne. omega arith),
          e,
        )
        (same.0, same.1 ∙ omega arith)
    where
      same :
          ((run_cycles (a + b) d (a + b - d) (started t)).0
            ≡ (run_cycles b (d - a) (a + b - d) (started t)).0)
          × ((run_cycles (a + b) d (a + b - d) (started t)).1.count
              ≡ (run_cycles b (d - a) (a + b - d) (started t)).1.count)
      same = run_cycles-congr (a + b) d b (d - a) (a + b - d) (started t) (started-IsTimer v)

-- Running a timer for a batch of cycles is the same as running it for any first part of the
-- batch and then for the rest: the state agrees and the overflows add up.
pub tick_one-add :
    (a b : ℕ) (t : TimerState)
    → IsTimer t
    → a + b < 2 ^ 31
    → let (t₁, o₁) = tick_one a t in
      let (t₂, o₂) = tick_one b t₁ in
      ((tick_one (a + b) t).0 ≡ t₂) × ((tick_one (a + b) t).1.count ≡ o₁.count + o₂.count)
tick_one-add a b t v h = elim (Bool-cases (not (enabled t) || cascade t)) [
  | inl idle ↦
      rw (tick_one-idle (a + b) t idle, tick_one-idle a t idle, tick_one-idle b t idle) (refl, refl)
  | inr on ↦ elim (Bool-cases (ltb 0 t.startup_delay && leb a t.startup_delay)) [
    | inl waits ↦ elim (Bool-cases (leb (a + b) t.startup_delay)) [
      | inl all ↦ both_wait a b t v h on (ground arith) (ground arith)
      | inr part ↦ second_runs a b t v h on (ground arith) (ground arith) (ground arith)
    ]
    | inr runs ↦ first_runs a b t v h on (λ ne. ground arith)
  ]
]
