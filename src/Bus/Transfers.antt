-- ===== src/Bus/Transfers.antt =====
-- The transfers that the bus runs: candidates/gba-core/src/bus.rs. While one runs, `dma_running` is
-- set, so that the writes in it start no other; those wait for the loop of `run_immediate_dma`,
-- which takes fuel.
pub mod Hang
pub mod Sound
use gba_eval.Base.{
  ℕ, zero, suc, ◌+◌, ◌-◌, ◌*◌, ◌/◌, ◌%◌, ◌^◌, ◌==◌, ◌&&◌, ◌||◌, not, Bool, true, false,
  if◌then◌else◌, Option, some, none, u16, add32, test_bit, set_bit, clear_bit, ◌>>>◌, length,
  get_or,
}
use gba_eval.Apu.Registers.{write_fifo_32}
use gba_eval.Apu.Unit.{fifo_a_needs_data, fifo_b_needs_data}
use gba_eval.Dma.{
  DmaChannel, DmaTiming, immediate, v_blank, h_blank, special, channel_enabled, timing, is_32bit,
  word_size, step_of, src_adj, dst_adj, repeat, irq, full_count,
}
use gba_eval.DmaMemory.{DmaBusAccess, read32}
use gba_eval.Io.{request_irq}
use gba_eval.Ppu.{align2, align4}
use gba_eval.Bus.{Bus, charge_data}
use gba_eval.Bus.Reads.{bus_read16, bus_read32}
use gba_eval.Bus.Writes.{Written, write16_inner, at_fifo, is_immediate, is_pending, at_channel}

unfoldable pub timing_eq : DmaTiming → DmaTiming → Bool
timing_eq immediate immediate = true
timing_eq v_blank v_blank = true
timing_eq h_blank h_blank = true
timing_eq special special = true
timing_eq _ _ = false

-- The writes of a transfer.
unfoldable pub transfer_write16 : ℕ → ℕ → Bus → Bus
transfer_write16 addr val bus = (write16_inner addr val (charge_data (align2 addr) false bus)).0

unfoldable pub transfer_write32 : ℕ → ℕ → Bus → Bus
transfer_write32 addr₀ val bus₀ =
    let addr = align4 addr₀ in
    let bus = charge_data addr true bus₀ in
    if at_fifo addr
    then record bus { apu = write_fifo_32 addr val bus.apu }
    else (write16_inner (addr + 2) (u16 (val >>> 16)) (write16_inner addr (u16 val) bus).0).0

unfoldable pub transfer_unit : Bool → ℕ → ℕ → Bus → Bus
transfer_unit true src dst bus = let (v, bus') = bus_read32 src 0 bus in transfer_write32 dst v bus'
transfer_unit false src dst bus =
    let (v, bus') = bus_read16 src 0 bus in transfer_write16 dst v bus'

-- The units left, their width, the two steps and the two addresses.
unfoldable pub transfer_units : ℕ → Bool → ℕ → ℕ → ℕ → ℕ → Bus → ℕ × ℕ × Bus
transfer_units zero wide src_step dst_step src dst bus = (src, dst, bus)
transfer_units (suc n) wide src_step dst_step src dst bus =
    transfer_units n wide src_step dst_step (add32 src src_step) (add32 dst dst_step)
      (transfer_unit wide src dst bus)

-- The channel after its transfer.
abbrev pub retire : ℕ → ℕ → ℕ → DmaChannel → DmaChannel
retire ch src dst c =
    let c₁ = record c {
      internal_src = src;
      internal_dst = if dst_adj c == 3 then c.dst else dst;
    } in
    if not (repeat c)
    then record c₁ { control = clear_bit 15 c.control }
    else record c₁ { internal_count = full_count ch c.count }

-- The write-back of the addresses, and the interrupt.
unfoldable pub complete : ℕ → ℕ × ℕ × Bus → Bus
complete ch (src, dst, bus) =
    let bus' = at_channel ch (retire ch src dst) bus in
    if irq (bus'.dma ch) then record bus' { io = request_irq (8 + ch) bus'.io } else bus'

unfoldable pub run_channel : DmaTiming → ℕ → Bus → Bus
run_channel when ch bus =
    let c = bus.dma ch in
    let size = word_size c in
    if not (channel_enabled c) || not (timing_eq (timing c) when)
    then bus
    else complete ch (
        transfer_units c.internal_count (is_32bit c) (step_of (src_adj c) size)
          (step_of (dst_adj c) size) c.internal_src c.internal_dst bus)

-- All channels of a trigger, in their order.
unfoldable pub run_channels : DmaTiming → Bus → Bus
run_channels when bus =
    let done = run_channel when 3 (
      run_channel when 2
        (run_channel when 1 (run_channel when 0 (record bus { dma_running = true })))) in
    record done { dma_running = false }

unfoldable pub any_pending : Bus → Bool
any_pending bus =
    is_pending (bus.dma 0)
    || is_pending (bus.dma 1)
    || is_pending (bus.dma 2)
    || is_pending (bus.dma 3)

unfoldable pub run_immediate_dma : ℕ → Bus → Option Bus
run_immediate_dma zero bus = none
run_immediate_dma (suc fuel) bus = elim (any_pending bus) [
  | true ↦ run_immediate_dma fuel (run_channels immediate bus)
  | false ↦ some bus
]

-- Another trigger, and the immediate transfers that it has enabled.
pub run_dma : ℕ → DmaTiming → Bus → Option Bus
run_dma fuel when bus =
    let bus' = run_channels when bus in
    if not (is_immediate when) && any_pending bus' then run_immediate_dma fuel bus' else some bus'

-- The memories that a transfer into a sound queue reads.
abbrev memories : Bus → DmaBusAccess
memories bus = record {
  ewram = bus.ewram;
  iwram = bus.iwram;
  palette = bus.ppu.palette;
  vram = bus.ppu.vram;
  vram_len = 96 * 1024;
  oam = bus.ppu.oam;
  rom = λ i. get_or bus.rom i 0;
  rom_len = length bus.rom;
}

-- The channel after four words from `src` into a queue.
abbrev pub feed : ℕ → DmaChannel → DmaChannel
feed src c = record c { internal_src = add32 src 16 }

-- Four words into a queue.
feed_fifo : ℕ → ℕ → ℕ → Bus → Bus
feed_fifo ch addr src bus =
    let word = λ (i : ℕ). read32 (add32 src (i * 4)) (memories bus) in
    let apu' = write_fifo_32 addr (word 3) (
      write_fifo_32 addr (word 2)
        (write_fifo_32 addr (word 1) (write_fifo_32 addr (word 0) bus.apu))) in
    at_channel ch (feed src) (record bus { apu = apu' })

-- The timer of a queue by its bit in SOUNDCNT_H.
abbrev fifo_timer : ℕ → Bus → ℕ
fifo_timer n bus = if test_bit n bus.apu.soundcnt_h then 1 else 0

feed_channel : ℕ → ℕ → Bus → Bus
unfolding feed_fifo
feed_channel timer_id ch bus =
    let c = bus.dma ch in
    if not (channel_enabled c) || not (timing_eq (timing c) special)
    then bus
    else if c.dst == 0x0400_00a0
    then (if (fifo_timer 10 bus == timer_id) && fifo_a_needs_data bus.apu
        then feed_fifo ch 0x0400_00a0 c.internal_src bus
        else bus)
    else if c.dst == 0x0400_00a4
    then (if (fifo_timer 14 bus == timer_id) && fifo_b_needs_data bus.apu
        then feed_fifo ch 0x0400_00a4 c.internal_src bus
        else bus)
    else bus

pub check_sound_fifo_dma : ℕ → Bus → Bus
unfolding feed_channel
check_sound_fifo_dma timer_id bus = feed_channel timer_id 2 (feed_channel timer_id 1 bus)
