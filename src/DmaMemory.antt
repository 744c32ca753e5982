-- ===== src/DmaMemory.antt =====
-- The memory that a DMA transfer reaches: candidates/gba-core/src/dma.rs, `DmaBusAccess`. A byte
-- array is a function; `vram_len` and `rom_len` are the lengths that the code asks for.
pub mod Halfwords
use gba_eval.Base.{
  ℕ, ◌+◌, ◌-◌, ◌*◌, ◌/◌, ◌%◌, ◌^◌, ◌==◌, ◌&&◌, leb, ltb, Bool, true, false, if◌then◌else◌, field,
  low_bits, u8, u16, add32, ◌>>>◌, ◌<<<◌, bit_or, update,
}

pub record DmaBusAccess : Type 0 where
  pub ewram : ℕ → ℕ
  pub iwram : ℕ → ℕ
  pub palette : ℕ → ℕ
  pub vram : ℕ → ℕ
  pub vram_len : ℕ
  pub oam : ℕ → ℕ
  pub rom : ℕ → ℕ
  pub rom_len : ℕ

-- `addr & (2 ^ k - 2)`
abbrev pub even_index : ℕ → ℕ → ℕ
even_index k addr = low_bits k addr / 2 * 2

pub vram_index : ℕ → ℕ
vram_index addr =
    let off = low_bits 17 addr in
    let i = if leb 0x1_8000 off then off - 0x8000 else off in i / 2 * 2

-- `u16::from_le_bytes` of two neighbours, and the write of `to_le_bytes`.
abbrev pub half_at : (ℕ → ℕ) → ℕ → ℕ
half_at m i = m i + m (i + 1) * 2 ^ 8

abbrev pub put_half : (ℕ → ℕ) → ℕ → ℕ → ℕ → ℕ
put_half m i val = update (update m i (u8 val)) (i + 1) (u8 (val >>> 8))

pub read16 : ℕ → DmaBusAccess → ℕ
unfolding vram_index
read16 addr bus =
    let region = field 24 4 addr in
    if region == 0x2
    then half_at bus.ewram (even_index 18 addr)
    else if region == 0x3
    then half_at bus.iwram (even_index 15 addr)
    else if region == 0x5
    then half_at bus.palette (even_index 10 addr)
    else if region == 0x6
    then (if ltb (vram_index addr + 1) bus.vram_len then half_at bus.vram (vram_index addr) else 0)
    else if region == 0x7
    then half_at bus.oam (even_index 10 addr)
    else if leb 0x8 region && leb region 0xd
    then (if ltb (even_index 25 addr + 1) bus.rom_len
        then half_at bus.rom (even_index 25 addr)
        else 0)
    else 0

pub read32 : ℕ → DmaBusAccess → ℕ
read32 addr bus = bit_or (read16 addr bus) (read16 (add32 addr 2) bus <<< 16)

pub write16 : ℕ → ℕ → DmaBusAccess → DmaBusAccess
unfolding vram_index
write16 addr val bus =
    let region = field 24 4 addr in
    if region == 0x2
    then record bus { ewram = put_half bus.ewram (even_index 18 addr) val }
    else if region == 0x3
    then record bus { iwram = put_half bus.iwram (even_index 15 addr) val }
    else if region == 0x5
    then record bus { palette = put_half bus.palette (even_index 10 addr) val }
    else if region == 0x6
    then (if ltb (vram_index addr + 1) bus.vram_len
        then record bus { vram = put_half bus.vram (vram_index addr) val }
        else bus)
    else if region == 0x7
    then record bus { oam = put_half bus.oam (even_index 10 addr) val }
    else bus

pub write32 : ℕ → ℕ → DmaBusAccess → DmaBusAccess
write32 addr val bus = write16 (add32 addr 2) (u16 (val >>> 16)) (write16 addr (u16 val) bus)
