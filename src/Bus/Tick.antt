-- ===== src/Bus/Tick.antt =====
-- The passage of time on the bus: candidates/gba-core/src/bus.rs. Fuel is given for the sample loop,
-- the immediate transfers and the events.
pub mod Merge
use gba_eval.Base.{
  ℕ, zero, suc, ◌+◌, ◌-◌, ◌*◌, ◌/◌, ◌%◌, ◌^◌, ◌==◌, ◌&&◌, ◌||◌, Bool, true, false, if◌then◌else◌,
  Option, some, none, ltb, leb, min, add32,
}
use gba_eval.Apu.Unit.{tick_until, on_timer_overflow, fifo_a_needs_data, fifo_b_needs_data}
use gba_eval.Dma.{v_blank, h_blank}
use gba_eval.Io.{request_irq}
use gba_eval.Ppu.Events.{on_hdraw, on_hblank}
use gba_eval.Scheduler.{Event, h_draw, h_blank, timer_overflow, advance, pop_due}
use gba_eval.Timer.{TimerState, TimerOverflow, tick, period_cycles, irq_enabled}
use gba_eval.Bus.{Bus, ◌>>=◌}
use gba_eval.Bus.Transfers.{run_dma, check_sound_fifo_dma}

-- The interrupt of timer `i`.
raise_timer : (ℕ → TimerState × TimerOverflow) → ℕ → Bus → Bus
raise_timer ov i bus =
    if ltb 0 (ov i).1.count && irq_enabled (ov i).0
    then record bus { io = request_irq (3 + i) bus.io }
    else bus

-- `first_cycle.saturating_add(period.saturating_mul(k))`
abbrev saturate : ℕ → ℕ
saturate n = min n (2 ^ 32 - 1)

abbrev pub overflow_cycle : TimerOverflow → ℕ → ℕ → ℕ
overflow_cycle ov period k = saturate (ov.first_cycle + saturate (period * k))

-- The samples up to a cycle of the batch.
sound_until : ℕ → ℕ → Bus → Option Bus
sound_until fuel target bus = elim (tick_until fuel target bus.apu) [
  | none ↦ none
  | some apu' ↦ some (record bus { apu = apu' })
]

-- One overflow of timer `i` at a cycle of the batch, as the sound unit sees it.
pub overflow_at : ℕ → ℕ → ℕ → ℕ → ℕ → Bus → Option Bus
unfolding sound_until
overflow_at fuel base cycles cyc i bus = sound_until fuel (add32 base (min cyc cycles)) bus >>= λ b.
    let b' = record b { apu = on_timer_overflow i b.apu } in
    some (
      if fifo_a_needs_data b'.apu || fifo_b_needs_data b'.apu
      then check_sound_fifo_dma i b'
      else b')

-- Which timer overflows next, after `k0` and `k1` overflows of the two.
pub data Next : Type 0 where
  done : Next
  zeroth first : ℕ → Next

pub next_overflow : TimerOverflow → TimerOverflow → ℕ → ℕ → ℕ → ℕ → Next
next_overflow ov0 ov1 period0 period1 k0 k1 =
    let c0 = overflow_cycle ov0 period0 k0 in
    let c1 = overflow_cycle ov1 period1 k1 in
    if ltb k0 ov0.count
    then (if ltb k1 ov1.count then (if leb c0 c1 then zeroth c0 else first c1) else zeroth c0)
    else if ltb k1 ov1.count
    then first c1
    else done

-- The overflows of timers 0 and 1 in the order of their cycles: the rounds left, and the function
-- that says which is next and the one that runs it.
pub merge_overflows : ℕ → (ℕ → ℕ → Next) → (ℕ → ℕ → Bus → Option Bus) → ℕ → ℕ → Bus → Option Bus
merge_overflows zero next run k0 k1 bus = none
merge_overflows (suc n) next run k0 k1 bus = elim (next k0 k1) [
  | done ↦ some bus
  | zeroth c ↦ run c 0 bus >>= merge_overflows n next run (k0 + 1) k1
  | first c ↦ run c 1 bus >>= merge_overflows n next run k0 (k1 + 1)
]

overflow_sound : (ℕ → TimerState × TimerOverflow) → ℕ → Bus → Bus
overflow_sound ov i bus =
    if ltb 0 (ov i).1.count then record bus { apu = on_timer_overflow i bus.apu } else bus

-- A scheduled event, and the transfers that it triggers.
pub handle_event : ℕ → Event → Bus → Option Bus
handle_event fuel h_draw bus =
    let (ppu', io', sched') = on_hdraw bus.ppu bus.io bus.sched in
    let bus' = record bus { ppu = ppu'; io = io'; sched = sched' } in
    if ppu'.vcount == 160 then run_dma fuel v_blank bus' else some bus'
handle_event fuel h_blank bus =
    let (ppu', io', sched') = on_hblank bus.ppu bus.io bus.sched in
    let bus' = record bus { ppu = ppu'; io = io'; sched = sched' } in
    if ltb ppu'.vcount 160 then run_dma fuel h_blank bus' else some bus'
handle_event fuel (timer_overflow i) bus = some bus

-- The rounds left, and the fuel of a transfer.
pub drain_events : ℕ → ℕ → Bus → Option Bus
drain_events zero fuel bus = none
drain_events (suc n) fuel bus =
    let (sched', due) = pop_due bus.sched in
    elim due [
      | none ↦ some bus
      | some ev ↦ handle_event fuel ev (record bus { sched = sched' }) >>= drain_events n fuel
    ]

pub bus_tick : ℕ → ℕ → Bus → Option Bus
unfolding overflow_at raise_timer overflow_sound
bus_tick fuel cycles bus =
    let ov = tick cycles bus.timers in
    let bus₁ = record bus { sched = advance cycles bus.sched; timers = λ i. (ov i).0 } in
    let bus₂ = raise_timer ov 3 (raise_timer ov 2 (raise_timer ov 1 (raise_timer ov 0 bus₁))) in
    let base = bus₂.apu.sample_clock in
    let rounds = (ov 0).1.count + (ov 1).1.count + 1 in
    let next = next_overflow (ov 0).1 (ov 1).1 (period_cycles (ov 0).0) (period_cycles (ov 1).0) in
    merge_overflows rounds next (overflow_at fuel base cycles) 0 0 bus₂ >>= λ b.
    sound_until fuel (add32 base cycles) (overflow_sound ov 3 (overflow_sound ov 2 b))
    >>= drain_events fuel fuel
