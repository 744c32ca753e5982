-- ===== src/Dma/Tests.antt =====
-- The theorems on the DMA channels at concrete inputs.
use gba_eval.Base.{arith}
use gba_eval.Dma.{channel_default, write_src_lo, write_channel_control}
use gba_eval.Bus.Transfers.{retire}
use gba_eval.Dma.Inv.{IsChannel, Step, Reach, Reach-IsChannel}

-- Channel 3 is set to repeat, ends a transfer that counted down below address 0, and is turned off.
Reach-IsChannel_example : IsChannel (
    write_channel_control 3 0 (
      retire 3 0xffff_fffc 0x0200_0010
        (write_channel_control 3 0x8200 (write_src_lo 0x1234 channel_default))))
Reach-IsChannel_example = Reach-IsChannel 3 (
    Reach.next
      (Reach.next
        (Reach.next (Reach.next Reach.power_on (Step.sets_src_lo 0x1234 (omega arith)))
          (Step.sets_control 0x8200))
        (Step.retires 0xffff_fffc 0x0200_0010 (omega arith) (omega arith)))
      (Step.sets_control 0))
