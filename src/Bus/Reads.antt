-- ===== src/Bus/Reads.antt =====
-- Reads and fetches: candidates/gba-core/src/bus.rs.
pub mod Frame
pub mod Protection
use gba_eval.Base.{
  ℕ, ◌+◌, ◌-◌, ◌*◌, ◌/◌, ◌%◌, ◌^◌, ◌==◌, ◌&&◌, ◌||◌, Bool, true, false, if◌then◌else◌, leb, ltb, u8,
  u16, low_bits, high_bits, field, bit_or, ◌<<<◌, ◌>>>◌, List, get_or, length,
}
use gba_eval.Apu.Registers.{read_reg}
use gba_eval.Gpio.{gpio_read16}
use gba_eval.Io.Registers.{io_read16, io_register}
use gba_eval.Ppu.{word_at, align4, align2, read_palette32, read_vram32, read_oam32}
use gba_eval.Save.State.{SaveType, eeprom}
use gba_eval.Save.Access.{read8}
use gba_eval.Bus.{Bus, charge_data, charge_code}

-- A register of the sound unit, the timers, the DMA channels or the rest.
unfoldable pub read_io16 : ℕ → Bus → ℕ
read_io16 addr bus =
    let reg = io_register addr in
    if low_bits 16 addr == 0x0800
    then 0x0020
    else if low_bits 16 addr == 0x0802
    then 0x0d00
    else if leb 0x060 reg && leb reg 0x0a6
    then read_reg addr bus.apu
    else if leb 0x100 reg && leb reg 0x10e
    then (let t = bus.timers ((reg - 0x100) / 4) in if reg % 4 == 0 then t.counter else t.control)
    else if reg == 0x0ba
    then (bus.dma 0).control
    else if reg == 0x0c6
    then (bus.dma 1).control
    else if reg == 0x0d2
    then (bus.dma 2).control
    else if reg == 0x0de
    then (bus.dma 3).control
    else io_read16 addr bus.ppu bus.io

abbrev pub is_eeprom : SaveType → Bool
is_eeprom eeprom = true
is_eeprom _ = false

-- The EEPROM at the top of the cartridge.
abbrev pub at_eeprom : ℕ → ℕ → Bus → Bool
at_eeprom region off bus = is_eeprom bus.save.save_type && ((region == 0xd) || leb 0x01ff_ff00 off)

-- The pins of the cartridge, its bytes, or the address that an absent cartridge leaves on the bus.
pub read_rom : ℕ → Bus → ℕ
read_rom addr bus =
    let off = low_bits 25 addr in
    if leb 0xc4 off && leb off 0xc8 && bus.gpio.readable
    then bit_or (gpio_read16 addr bus.gpio) (gpio_read16 (addr + 2) bus.gpio <<< 16)
    else if leb (off + 4) (length bus.rom)
    then word_at (λ i. get_or bus.rom i 0) off
    else bit_or (low_bits 16 (addr >>> 1)) (low_bits 16 ((addr >>> 1) + 1) <<< 16)

-- `self.open_bus = v; v`
abbrev pub drive : ℕ → Bus → ℕ × Bus
drive v bus = (v, record bus { open_bus = v })

-- The BIOS is seen by its own code; other code reads what it fetched last.
read_bios : ℕ → ℕ → Bus → ℕ × Bus
read_bios addr pc bus =
    if ltb addr 0x4000
    then (if ltb pc 0x4000
        then drive (word_at bus.bios addr) (record bus { bios_last_fetch = word_at bus.bios addr })
        else drive bus.bios_last_fetch bus)
    else drive bus.open_bus bus

-- The word at an aligned address.
unfoldable pub read_aligned : ℕ → ℕ → Bus → ℕ × Bus
unfolding read_bios
read_aligned addr pc bus =
    let region = field 24 4 addr in
    if leb region 0x1
    then read_bios addr pc bus
    else if region == 0x2
    then drive (word_at bus.ewram (low_bits 18 addr)) bus
    else if region == 0x3
    then drive (word_at bus.iwram (low_bits 15 addr)) bus
    else if region == 0x4
    then drive (bit_or (read_io16 addr bus) (read_io16 (addr + 2) bus <<< 16)) bus
    else if region == 0x5
    then drive (read_palette32 addr bus.ppu) bus
    else if region == 0x6
    then drive (read_vram32 addr bus.ppu) bus
    else if region == 0x7
    then drive (read_oam32 addr bus.ppu) bus
    else if leb region 0xd
    then (if at_eeprom region (low_bits 25 addr) bus
        then (let (save', v) = read8 addr bus.save in (v, record bus { save = save' }))
        else drive (read_rom addr bus) bus)
    else let (save', v) = read8 addr bus.save in
      drive (v * 0x0101_0101) (record bus { save = save' })

unfoldable pub read32_inner : ℕ → ℕ → Bus → ℕ × Bus
read32_inner addr pc bus = read_aligned (align4 addr) pc bus

unfoldable pub bus_read32 : ℕ → ℕ → Bus → ℕ × Bus
bus_read32 addr pc bus = read32_inner addr pc (charge_data (align4 addr) true bus)

-- The halfword, or the byte, of a word that the address selects.
abbrev half_of : ℕ → ℕ × Bus → ℕ × Bus
half_of addr (v, bus) = (u16 (v >>> (low_bits 2 addr / 2 * 2 * 8)), bus)

abbrev byte_of : ℕ → ℕ × Bus → ℕ × Bus
byte_of addr (v, bus) = (u8 (v >>> (low_bits 2 addr * 8)), bus)

unfoldable pub bus_read16 : ℕ → ℕ → Bus → ℕ × Bus
bus_read16 addr pc bus = half_of addr (read32_inner addr pc (charge_data (align2 addr) false bus))

pub bus_read8 : ℕ → ℕ → Bus → ℕ × Bus
bus_read8 addr pc bus₀ =
    let bus = charge_data addr false bus₀ in
    let region = field 24 4 addr in
    if leb 0xe region
    then (let (save', v) = read8 addr bus.save in (v, record bus { save = save' }))
    else byte_of addr (read32_inner addr pc bus)

pub fetch16 : ℕ → Bus → ℕ × Bus
fetch16 addr bus = let a = align2 addr in half_of a (read32_inner a a (charge_code a false bus))

pub fetch32 : ℕ → Bus → ℕ × Bus
fetch32 addr bus = let a = align4 addr in read32_inner a a (charge_code a true bus)
