-- ===== src/Timer.antt =====
-- The four hardware timers: candidates/gba-core/src/timer.rs. An operation on timer `i` is a
-- function of `self.t[i]`, and `Timers` is the array.
pub mod Ticks
pub mod Run
pub mod Batches
pub mod Split
pub mod FirstOverflow
pub mod Inv
mod Tests
use gba_eval.Base.{
  ℕ, zero, ◌+◌, ◌-◌, ◌*◌, ◌/◌, ◌%◌, ◌^◌, min, ◌==◌, ◌!=◌, ◌&&◌, ◌||◌, not, leb, ltb, Bool, true,
  false, if◌then◌else◌, u16, u32, sub32, test_bit, low_bits, ◌>>>◌, ◌<<<◌,
}

pub record TimerState : Type 0 where
  pub reload : ℕ
  pub counter : ℕ
  pub control : ℕ
  pub prescaler_counter : ℕ
  pub startup_delay : ℕ

pub record TimerOverflow : Type 0 where
  pub count : ℕ
  pub first_cycle : ℕ

abbrev pub no_overflow : TimerOverflow
no_overflow = record { count = 0; first_cycle = 0 }

abbrev pub timer_default : TimerState
timer_default = record {
  reload = 0;
  counter = 0;
  control = 0;
  prescaler_counter = 0;
  startup_delay = 0;
}

abbrev pub enabled : TimerState → Bool
enabled t = test_bit 7 t.control

abbrev pub cascade : TimerState → Bool
cascade t = test_bit 2 t.control

abbrev pub irq_enabled : TimerState → Bool
irq_enabled t = test_bit 6 t.control

pub shift_of : ℕ → ℕ
shift_of control =
    let p = low_bits 2 control in
    if p == 0 then 0 else if p == 1 then 6 else if p == 2 then 8 else 10

abbrev pub prescaler_shift : TimerState → ℕ
prescaler_shift t = shift_of t.control

-- The new counter and the number of overflows.
pub add_to_timer : TimerState → ℕ → ℕ × ℕ
add_to_timer t ticks =
    let sum = u32 (t.counter + ticks) in
    if leb sum 0xffff
    then (u16 sum, 0)
    else (let remaining = sum - 0x1_0000 in
        let period = 0x1_0000 - t.reload in
        let extra_overflows = remaining / period in
        let new_val = t.reload + remaining % period in (u16 new_val, 1 + extra_overflows))

-- The prescaler and the counter over the cycles that the startup delay leaves.
pub run_cycles : ℕ → ℕ → ℕ → TimerState → TimerState × TimerOverflow
run_cycles cycles delay_offset effective_cycles t =
    let shift = prescaler_shift t in
    let presc_phase = t.prescaler_counter in
    let total = u32 (presc_phase + effective_cycles) in
    let ticks = total >>> shift in
    let t₁ = record t { prescaler_counter = low_bits shift total } in
    if ltb 0 ticks
    then (let (new_counter, n) = add_to_timer t₁ ticks in
        let t₂ = record t₁ { counter = new_counter } in
        if ltb 0 n
        then (let ticks_to_first = 0x1_0000 - t.counter in
            let cycles_to_first_tick = sub32 (2 ^ shift) presc_phase in
            let first_cycle =
              u32 (delay_offset + cycles_to_first_tick + u32 ((ticks_to_first - 1) <<< shift)) in
            (t₂, record { count = n; first_cycle = min first_cycle cycles }))
        else (t₂, no_overflow))
    else (t₁, no_overflow)

-- The first loop of `tick`, at one timer.
pub tick_one : ℕ → TimerState → TimerState × TimerOverflow
tick_one cycles t =
    if not (enabled t) || cascade t
    then (t, no_overflow)
    else if ltb 0 t.startup_delay && leb cycles t.startup_delay
    then (record t { startup_delay = t.startup_delay - cycles }, no_overflow)
    else run_cycles cycles t.startup_delay (cycles - t.startup_delay)
        (record t { startup_delay = 0 })

-- The second loop of `tick`, at one timer: the overflows of the timer before it, and what the
-- first loop left.
pub cascade_one : TimerOverflow → TimerState × TimerOverflow → TimerState × TimerOverflow
cascade_one previous (t, own) =
    if not (enabled t) || not (cascade t)
    then (t, own)
    else if ltb 0 previous.count
    then (let (new_counter, n) = add_to_timer t previous.count in
        (
          record t { counter = new_counter },
          if ltb 0 n then record { count = n; first_cycle = previous.first_cycle } else own,
        ))
    else (t, own)

abbrev pub Timers : Type 0
Timers = ℕ → TimerState

abbrev pub timers_new : Timers
timers_new i = timer_default

-- An array of four.
abbrev pub four {ℓ} : {A : Type ℓ} → A → A → A → A → ℕ → A
four a b c d i = if i == 0 then a else if i == 1 then b else if i == 2 then c else d

pub tick : ℕ → Timers → (ℕ → TimerState × TimerOverflow)
tick cycles t =
    let r₀ = tick_one cycles (t 0) in
    let r₁ = cascade_one r₀.1 (tick_one cycles (t 1)) in
    let r₂ = cascade_one r₁.1 (tick_one cycles (t 2)) in
    let r₃ = cascade_one r₂.1 (tick_one cycles (t 3)) in four r₀ r₁ r₂ r₃

-- Cycles between two overflows.
pub period_cycles : TimerState → ℕ
period_cycles t = u32 ((0x1_0000 - t.reload) <<< prescaler_shift t)

pub write_reload : ℕ → TimerState → TimerState
write_reload val t = record t { reload = val }

pub write_control : ℕ → TimerState → TimerState
write_control val t =
    let was_enabled = enabled t in
    let old_shift = prescaler_shift t in
    let t' = record t { control = val } in
    if was_enabled && not (enabled t') && not (cascade t')
    then (let total = u32 (t.prescaler_counter + 1) in
        let ticks = total >>> old_shift in
        let t₁ = record t' { prescaler_counter = low_bits old_shift total } in
        if ltb 0 ticks then record t₁ { counter = (add_to_timer t₁ ticks).0 } else t₁)
    else if not was_enabled && enabled t'
    then record t' { counter = t.reload; prescaler_counter = 0; startup_delay = 2 }
    else if was_enabled && enabled t'
    then (if prescaler_shift t' != old_shift then record t' { prescaler_counter = 0 } else t')
    else t'
