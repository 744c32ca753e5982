-- ===== src/Timer/Run.antt =====
-- What `run_cycles` leaves in the timer, without its case splits.
use gba_eval.Base.{ℕ, ◌+◌, ◌/◌, ◌%◌, ◌^◌, ◌<◌, ◌≡◌, arith, u32}
use gba_eval.Timer.{TimerState, prescaler_shift, add_to_timer, run_cycles}

-- Only the counter and the reload value count.
pub add_to_timer-congr :
    (t u : TimerState) (k : ℕ)
    → t.counter ≡ u.counter
    → t.reload ≡ u.reload
    → add_to_timer t k ≡ add_to_timer u k
unfolding add_to_timer
add_to_timer-congr t u k p q = ground arith

pub add_to_timer-zero : (t : TimerState) → t.counter < 0x1_0000 → add_to_timer t 0 ≡ (t.counter, 0)
unfolding add_to_timer
add_to_timer-zero t h = ground arith

module _ (cycles d e : ℕ) (t : TimerState) (c-lt : t.counter < 0x1_0000) where
  abbrev total : ℕ
  total = u32 (t.prescaler_counter + e)

  abbrev ticks : ℕ
  ticks = total / 2 ^ prescaler_shift t

  pub run_state : (run_cycles cycles d e t).0 ≡ record t {
    prescaler_counter = total % 2 ^ prescaler_shift t;
    counter = (add_to_timer t ticks).0;
  }
  unfolding run_cycles
  run_state = ground (
    arith,
    add_to_timer-zero t c-lt,
    add_to_timer-congr (record t { prescaler_counter = total % 2 ^ prescaler_shift t }) t ticks,
  )

  pub run_count : (run_cycles cycles d e t).1.count ≡ (add_to_timer t ticks).1
  unfolding run_cycles
  run_count = ground (
    arith,
    add_to_timer-zero t c-lt,
    add_to_timer-congr (record t { prescaler_counter = total % 2 ^ prescaler_shift t }) t ticks,
  )
