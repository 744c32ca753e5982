-- ===== src/Timer/Inv.antt =====
-- The state invariant of a timer, and that every operation keeps it.
use gba_eval.Base.{
  ℕ, ◌+◌, ◌-◌, ◌/◌, ◌%◌, ◌^◌, ◌<◌, ◌≤◌, ◌≡◌, ◌==◌, ◌&&◌, ◌||◌, not, leb, ltb, true, arith,
  Bool-cases, inl, inr, low_bits, u32, update,
}
use gba_eval.Timer.Run.{run_state}
use gba_eval.Timer.{
  TimerState, TimerOverflow, Timers, timers_new, enabled, cascade, prescaler_shift, shift_of,
  add_to_timer, run_cycles, tick_one, cascade_one, tick, write_reload, write_control,
}

-- The counters are 16 bits wide, and a running timer is inside a period of its prescaler.
pub record IsTimer (t : TimerState) : Type 0 where
  pub counter_in : t.counter < 0x1_0000
  pub reload_in : t.reload < 0x1_0000
  pub delay_in : t.startup_delay ≤ 2
  pub phase_small : t.prescaler_counter < 1024
  pub phase_in : enabled t ≡ true → t.prescaler_counter < 2 ^ prescaler_shift t

pub shift_of_bounds : (c : ℕ) → (1 ≤ 2 ^ shift_of c) × (2 ^ shift_of c ≤ 1024)
unfolding shift_of
shift_of_bounds c = ground arith

pub add_to_timer-lt : (t : TimerState) (k : ℕ) → (add_to_timer t k).0 < 0x1_0000
unfolding add_to_timer
add_to_timer-lt t k = ground arith

phase-lt : (c x : ℕ) → x % 2 ^ shift_of c < 2 ^ shift_of c
phase-lt c x = omega (arith, shift_of_bounds c)

run_cycles-IsTimer :
    (cycles d e : ℕ) (t : TimerState) → IsTimer t → IsTimer (run_cycles cycles d e t).0
run_cycles-IsTimer cycles d e t v = rw (run_state cycles d e t v.counter_in) record {
  counter_in = add_to_timer-lt t _;
  reload_in = v.reload_in;
  delay_in = v.delay_in;
  phase_small =
      omega (arith, phase-lt t.control (u32 (t.prescaler_counter + e)), shift_of_bounds t.control);
  phase_in = λ _. phase-lt t.control (u32 (t.prescaler_counter + e));
}

pub tick_one-IsTimer : (cycles : ℕ) (t : TimerState) → IsTimer t → IsTimer (tick_one cycles t).0
unfolding tick_one
tick_one-IsTimer cycles t v = elim (Bool-cases (not (enabled t) || cascade t)) [
  | inl idle ↦ rw idle v
  | inr runs ↦ rw runs (elim (Bool-cases (ltb 0 t.startup_delay && leb cycles t.startup_delay)) [
    | inl waits ↦ rw waits record {
      counter_in = v.counter_in;
      reload_in = v.reload_in;
      delay_in = omega (arith, v.delay_in);
      phase_small = v.phase_small;
      phase_in = v.phase_in;
    }
    | inr starts ↦ rw starts (
        run_cycles-IsTimer cycles t.startup_delay (cycles - t.startup_delay)
          (record t { startup_delay = 0 })
          record {
            counter_in = v.counter_in;
            reload_in = v.reload_in;
            delay_in = omega arith;
            phase_small = v.phase_small;
            phase_in = v.phase_in;
          })
  ])
]

pub cascade_one-IsTimer :
    (o : TimerOverflow) (r : TimerState × TimerOverflow) → IsTimer r.0 → IsTimer (cascade_one o r).0
unfolding cascade_one
cascade_one-IsTimer o (t, own) v = ground (arith, add_to_timer-lt t o.count)

write_reload-IsTimer :
    (val : ℕ) (t : TimerState) → val < 0x1_0000 → IsTimer t → IsTimer (write_reload val t)
unfolding write_reload
write_reload-IsTimer val t h v = ground arith

write_control-IsTimer : (val : ℕ) (t : TimerState) → IsTimer t → IsTimer (write_control val t)
unfolding write_control
write_control-IsTimer val t v = ground (
  arith,
  shift_of_bounds t.control,
  shift_of_bounds val,
  phase-lt t.control (u32 (t.prescaler_counter + 1)),
  add_to_timer-lt
      (record t {
        control = val;
        prescaler_counter = low_bits (prescaler_shift t) (u32 (t.prescaler_counter + 1));
      })
      (u32 (t.prescaler_counter + 1) / 2 ^ prescaler_shift t),
)

tick-IsTimer :
    (cycles : ℕ) (ts : Timers) → ((i : ℕ) → IsTimer (ts i)) → (i : ℕ) → IsTimer (tick cycles ts i).0
unfolding tick
tick-IsTimer cycles ts v i = ground (arith, v₀, v₁, v₂, v₃)
  where
    r₀ : TimerState × TimerOverflow
    r₀ = tick_one cycles (ts 0)

    r₁ : TimerState × TimerOverflow
    r₁ = cascade_one r₀.1 (tick_one cycles (ts 1))

    r₂ : TimerState × TimerOverflow
    r₂ = cascade_one r₁.1 (tick_one cycles (ts 2))

    v₀ : IsTimer r₀.0
    v₀ = tick_one-IsTimer cycles (ts 0) (v 0)

    v₁ : IsTimer r₁.0
    v₁ = cascade_one-IsTimer r₀.1 (tick_one cycles (ts 1)) (tick_one-IsTimer cycles (ts 1) (v 1))

    v₂ : IsTimer r₂.0
    v₂ = cascade_one-IsTimer r₁.1 (tick_one cycles (ts 2)) (tick_one-IsTimer cycles (ts 2) (v 2))

    v₃ : IsTimer (cascade_one r₂.1 (tick_one cycles (ts 3))).0
    v₃ = cascade_one-IsTimer r₂.1 (tick_one cycles (ts 3)) (tick_one-IsTimer cycles (ts 3) (v 3))

-- What the bus does to the timers.
pub data Step (ts : Timers) : Timers → Type 0 where
  ticks : (cycles : ℕ) → Step ts (λ i. (tick cycles ts i).0)
  reloads : (i val : ℕ) → val < 0x1_0000 → Step ts (update ts i (write_reload val (ts i)))
  controls : (i val : ℕ) → Step ts (update ts i (write_control val (ts i)))

pub data Reach : Timers → Type 0 where
  power_on : Reach timers_new
  next : {ts us : Timers} → Reach ts → Step ts us → Reach us

-- An array stays valid under a write of a valid entry.
update-IsTimer :
    (ts : Timers) (i : ℕ) (t : TimerState)
    → ((j : ℕ) → IsTimer (ts j))
    → IsTimer t
    → (j : ℕ) → IsTimer (update ts i t j)
update-IsTimer ts i t v h j = elim (Bool-cases (j == i)) [
  | inl here ↦ rw here h
  | inr other ↦ rw other (v j)
]

Step-IsTimer : {ts us : Timers} → Step ts us → ((i : ℕ) → IsTimer (ts i)) → (i : ℕ) → IsTimer (us i)
Step-IsTimer {ts} (ticks cycles) v i = tick-IsTimer cycles ts v i
Step-IsTimer {ts} (reloads j val h) v i =
    update-IsTimer ts j (write_reload val (ts j)) v (write_reload-IsTimer val (ts j) h (v j)) i
Step-IsTimer {ts} (controls j val) v i =
    update-IsTimer ts j (write_control val (ts j)) v (write_control-IsTimer val (ts j) (v j)) i

-- Whatever ticks and register writes follow power-on, every timer keeps its counters within 16
-- bits, its startup delay within 2 and, while it runs, its prescaler within one period.
pub Reach-IsTimer : {ts : Timers} → Reach ts → (i : ℕ) → IsTimer (ts i)
Reach-IsTimer power_on i = record {
  counter_in = omega arith;
  reload_in = omega arith;
  delay_in = omega arith;
  phase_small = omega arith;
  phase_in = λ e. cc;
}
Reach-IsTimer (next r s) i = Step-IsTimer s (Reach-IsTimer r) i
