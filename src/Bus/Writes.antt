-- ===== src/Bus/Writes.antt =====
-- Writes: candidates/gba-core/src/bus.rs. A write of a DMA control register can start a transfer,
-- which runs before the write returns; `start` tells so, and Bus.Access runs it.
pub mod Guard
pub mod Bytes
use gba_eval.Base.{
  ℕ, ◌+◌, ◌-◌, ◌*◌, ◌/◌, ◌%◌, ◌^◌, ◌==◌, ◌&&◌, ◌||◌, not, Bool, true, false, if◌then◌else◌, leb,
  ltb, u8, u16, low_bits, high_bits, field, test_bit, update, ◌>>>◌,
}
use gba_eval.Apu.Registers.{write_reg, write_fifo_32}
use gba_eval.Dma.{
  DmaChannel, DmaTiming, immediate, channel_enabled, timing, write_src_lo, write_src_hi,
  write_dst_lo, write_dst_hi, write_count, write_channel_control,
}
use gba_eval.DmaMemory.{put_half}
use gba_eval.Gpio.{gpio_write16}
use gba_eval.Io.Registers.{io_write16, io_register, put_byte}
use gba_eval.Ppu.{
  Ppu, align2, align4, write_palette16, write_vram16, write_vram8, write_oam16, write_affine_param,
  write_effect_reg,
}
use gba_eval.Save.Access.{write8}
use gba_eval.Timer.{write_reload, write_control}
use gba_eval.Bus.{Bus, charge_data, on_waitcnt_write}
use gba_eval.Bus.Reads.{read_io16, at_eeprom}

abbrev pub is_immediate : DmaTiming → Bool
is_immediate immediate = true
is_immediate _ = false

-- `enabled() && timing() == Immediate`
abbrev pub is_pending : DmaChannel → Bool
is_pending c = channel_enabled c && is_immediate (timing c)

abbrev pub at_channel : ℕ → (DmaChannel → DmaChannel) → Bus → Bus
at_channel ch f bus = record bus { dma = update bus.dma ch (f (bus.dma ch)) }

-- A halfword of the twelve bytes of a channel.
write_dma : ℕ → ℕ → ℕ → DmaChannel → DmaChannel
write_dma ch off val c =
    if off == 0
    then write_src_lo val c
    else if off == 2
    then write_src_hi ch val c
    else if off == 4
    then write_dst_lo val c
    else if off == 6
    then write_dst_hi ch val c
    else if off == 8
    then write_count val c
    else if off == 10
    then write_channel_control ch val c
    else c

abbrev with_ppu : (Ppu → Ppu) → Bus → Bus
with_ppu f bus = record bus { ppu = f bus.ppu }

-- The picture unit's mode registers and the interrupt control, WAITCNT among them.
write_io : ℕ → ℕ → Bus → Bus
write_io addr val bus =
    let (ppu', io') = io_write16 addr val bus.ppu bus.io in
    let bus' = record bus { ppu = ppu'; io = io' } in
    if io_register addr == 0x204 then on_waitcnt_write bus' else bus'

-- The state after the write, and whether an immediate transfer starts.
abbrev pub Written : Type 0
Written = Bus × Bool

write_register : ℕ → ℕ → Bus → Written
unfolding write_dma write_io
write_register addr val bus =
    let reg = io_register addr in
    if leb 0x0800 (low_bits 16 addr)
    then (bus, false)
    else if leb 0x0b0 reg && leb reg 0x0de
    then (let ch = (reg - 0x0b0) / 12 in
        let off = (reg - 0x0b0) % 12 in
        let bus' = at_channel ch (write_dma ch off val) bus in
        (bus', (off == 10) && is_pending (bus'.dma ch) && not bus.dma_running))
    else if leb 0x020 reg && leb reg 0x03f
    then (with_ppu (write_affine_param reg val) bus, false)
    else if leb 0x040 reg && leb reg 0x054
    then (with_ppu (write_effect_reg reg val) bus, false)
    else if leb 0x060 reg && leb reg 0x0a6
    then (record bus { apu = write_reg addr val bus.apu }, false)
    else if leb 0x100 reg && leb reg 0x10e
    then (let i = (reg - 0x100) / 4 in
        let write = if reg % 4 == 0 then write_reload val else write_control val in
        (record bus { timers = update bus.timers i (write (bus.timers i)) }, false))
    else (write_io addr val bus, false)

-- The EEPROM and the pins of the cartridge; its memory cannot be written.
write_rom : ℕ → ℕ → ℕ → Bus → Bus
write_rom region addr val bus =
    let off = low_bits 25 addr in
    if at_eeprom region off bus
    then record bus { save = write8 addr (u8 val) bus.save }
    else if leb 0xc4 off && leb off 0xc8
    then record bus { gpio = gpio_write16 addr val bus.gpio }
    else bus

-- A halfword at an even address.
unfoldable pub write_even : ℕ → ℕ → Bus → Written
unfolding write_register write_rom
write_even addr val bus =
    let region = field 24 4 addr in
    if region == 0x2
    then (record bus { ewram = put_half bus.ewram (low_bits 18 addr) val }, false)
    else if region == 0x3
    then (record bus { iwram = put_half bus.iwram (low_bits 15 addr) val }, false)
    else if region == 0x4
    then write_register addr val bus
    else if region == 0x5
    then (with_ppu (write_palette16 addr val) bus, false)
    else if region == 0x6
    then (with_ppu (write_vram16 addr val) bus, false)
    else if region == 0x7
    then (with_ppu (write_oam16 addr val) bus, false)
    else if leb 0x8 region && leb region 0xd
    then (write_rom region addr val bus, false)
    else if leb 0xe region
    then (record bus { save = write8 addr (u8 val) bus.save }, false)
    else (bus, false)

unfoldable pub write16_inner : ℕ → ℕ → Bus → Written
write16_inner addr val bus = write_even (align2 addr) val bus

-- A byte of a register is a read, a change and a write of its halfword.
write_register8 : ℕ → ℕ → Bus → Written
write_register8 addr val bus =
    if addr == 0x0400_0301
    then (
      if test_bit 7 val then bus else record bus { io = record bus.io { haltcnt = true } },
      false,
    )
    else write16_inner (align2 addr) (put_byte addr val (read_io16 (align2 addr) bus)) bus

unfoldable pub write8_inner : ℕ → ℕ → Bus → Written
unfolding write_register8
write8_inner addr val bus =
    let region = field 24 4 addr in
    if region == 0x2
    then (record bus { ewram = update bus.ewram (low_bits 18 addr) val }, false)
    else if region == 0x3
    then (record bus { iwram = update bus.iwram (low_bits 15 addr) val }, false)
    else if region == 0x4
    then write_register8 addr val bus
    else if region == 0x5
    then (with_ppu (write_palette16 (align2 addr) (val + val * 2 ^ 8)) bus, false)
    else if region == 0x6
    then (with_ppu (write_vram8 addr val) bus, false)
    else if leb 0xe region
    then (record bus { save = write8 addr val bus.save }, false)
    else (bus, false)

-- The words of the sound queues are written whole.
abbrev pub at_fifo : ℕ → Bool
at_fifo addr =
    (field 24 4 addr == 4) && ((low_bits 12 addr == 0x0a0) || (low_bits 12 addr == 0x0a4))
