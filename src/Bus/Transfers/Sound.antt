-- ===== src/Bus/Transfers/Sound.antt =====
-- The transfers into the sound queues.
use gba_eval.Base.{ℕ, ◌==◌, ◌&&◌, ◌||◌, not, Bool, true, false, if◌then◌else◌}
use gba_eval.Apu.Unit.{fifo_a_needs_data, fifo_b_needs_data}
use gba_eval.Apu.Unit.Clock.{IsApu}
use gba_eval.Apu.Unit.Ends.{write_fifo_32-IsApu}
use gba_eval.Dma.{channel_enabled, timing, special}
use gba_eval.Bus.{Bus}
use gba_eval.Bus.Transfers.{timing_eq, feed_fifo, fifo_timer, feed_channel, check_sound_fifo_dma}

-- The channels of the sound unit are in a state that ends their loops.
pub record IsSound (bus : Bus) : Type 0 where
  pub apu : IsApu bus.apu

either : (t : Bool) {a b : Bus} → IsSound a → IsSound b → IsSound (if t then a else b)
either true v w = v
either false v w = w

feed_fifo-IsSound :
    (ch addr src : ℕ) (bus : Bus) → IsSound bus → IsSound (feed_fifo ch addr src bus)
unfolding feed_fifo
feed_fifo-IsSound ch addr src bus v = record {
  apu = write_fifo_32-IsApu addr _ _ (
      write_fifo_32-IsApu addr _ _
        (write_fifo_32-IsApu addr _ _ (write_fifo_32-IsApu addr _ bus.apu v.apu)));
}

feed_channel-IsSound :
    (timer_id ch : ℕ) (bus : Bus) → IsSound bus → IsSound (feed_channel timer_id ch bus)
unfolding feed_channel
feed_channel-IsSound timer_id ch bus v =
    let c = bus.dma ch in
    either (not (channel_enabled c) || not (timing_eq (timing c) special)) v (
      either (c.dst == 0x0400_00a0)
        (either ((fifo_timer 10 bus == timer_id) && fifo_a_needs_data bus.apu)
          (feed_fifo-IsSound ch 0x0400_00a0 c.internal_src bus v) v)
        (either (c.dst == 0x0400_00a4)
          (either ((fifo_timer 14 bus == timer_id) && fifo_b_needs_data bus.apu)
            (feed_fifo-IsSound ch 0x0400_00a4 c.internal_src bus v) v)
          v))

pub check_sound_fifo_dma-IsSound :
    (timer_id : ℕ) (bus : Bus) → IsSound bus → IsSound (check_sound_fifo_dma timer_id bus)
unfolding check_sound_fifo_dma
check_sound_fifo_dma-IsSound timer_id bus v =
    feed_channel-IsSound timer_id 2 (feed_channel timer_id 1 bus)
      (feed_channel-IsSound timer_id 1 bus v)
