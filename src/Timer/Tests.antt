-- ===== src/Timer/Tests.antt =====
-- The theorems on the timers at concrete inputs.
use gba_eval.Base.{◌+◌, ◌<◌, ◌≤◌, ◌≡◌, ◌↔◌, refl, arith, update}
use gba_eval.Timer.{
  TimerState, Timers, timers_new, timer_default, add_to_timer, tick_one, tick, write_reload,
  write_control, shift_of, run_cycles,
}
use gba_eval.Timer.Split.{tick_one-add}
use gba_eval.Timer.FirstOverflow.{first_cycle_exact}
use gba_eval.Timer.Inv.{IsTimer, Step, Reach, Reach-IsTimer}

-- A timer of 16 ticks a period, with the fastest prescaler, one tick before its overflow.
abbrev fast : TimerState
fast = record timer_default { reload = 0xfff0; counter = 0xffff; control = 0x80; startup_delay = 2 }

fast-IsTimer : IsTimer fast
fast-IsTimer = record {
  counter_in = omega arith;
  reload_in = omega arith;
  delay_in = omega arith;
  phase_small = omega arith;
  phase_in = λ e. unfold shift_of in omega arith;
}

tick_one-add_example :
    let (t₁, o₁) = tick_one 7 fast in
    let (t₂, o₂) = tick_one 20 t₁ in
    ((tick_one (7 + 20) fast).0 ≡ t₂) × ((tick_one (7 + 20) fast).1.count ≡ o₁.count + o₂.count)
tick_one-add_example = tick_one-add 7 20 fast fast-IsTimer (omega arith)

fast_overflows : 0 < (tick_one 20 fast).1.count
unfolding tick_one run_cycles add_to_timer shift_of
fast_overflows = omega arith

first_cycle_exact_example : (0 < (tick_one 3 fast).1.count) ↔ ((tick_one 20 fast).1.first_cycle ≤ 3)
first_cycle_exact_example =
    first_cycle_exact 20 3 fast fast-IsTimer refl (omega arith) (omega arith) fast_overflows

abbrev programmed : Timers
programmed =
    update (update timers_new 1 (write_reload 0xfff0 (timers_new 1))) 1
      (write_control 0xc0 (update timers_new 1 (write_reload 0xfff0 (timers_new 1)) 1))

programmed_reached : Reach (λ i. (tick 100 programmed i).0)
programmed_reached =
    Reach.next
      (Reach.next (Reach.next Reach.power_on (Step.reloads 1 0xfff0 (omega arith)))
        (Step.controls 1 0xc0))
      (Step.ticks 100)

Reach-IsTimer_example : IsTimer (tick 100 programmed 1).0
Reach-IsTimer_example = Reach-IsTimer programmed_reached 1
