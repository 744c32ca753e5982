-- ===== src/Ppu.antt =====
-- The registers and memories of the picture unit: candidates/gba-core/src/ppu.rs. Signed fields are
-- the words of their two's complement. The line buffers, which a line starts with empty, are the
-- record of Ppu.Layers and not part of the state.
pub mod Events
pub mod Lines
pub mod Colors
pub mod Render
pub mod Sprites
pub mod Scanline
pub mod Layers
mod Tests
use gba_eval.Base.{
  ℕ, ◌+◌, ◌-◌, ◌*◌, ◌/◌, ◌%◌, ◌^◌, ◌==◌, ◌!=◌, ◌||◌, Bool, true, false, if◌then◌else◌, ltb, leb, u8,
  u16, u32, add32, low_bits, high_bits, test_bit, set_bit, clear_bit, field, update, ◌>>>◌, ◌<<<◌,
}
use gba_eval.Io.{IoRegs, request_vblank_irq, request_hblank_irq, request_vcounter_irq}
use gba_eval.Scheduler.{Scheduler, push, h_draw, h_blank}
use gba_eval.DmaMemory.{put_half}

pub record BgRegs : Type 0 where
  pub cnt : ℕ
  pub xofs : ℕ
  pub yofs : ℕ
  pub pa : ℕ
  pub pb : ℕ
  pub pc : ℕ
  pub pd : ℕ
  pub ref_x : ℕ
  pub ref_y : ℕ
  pub internal_x : ℕ
  pub internal_y : ℕ

abbrev pub bg_new : BgRegs
bg_new = record {
  cnt = 0;
  xofs = 0;
  yofs = 0;
  pa = 0x100;
  pb = 0;
  pc = 0;
  pd = 0x100;
  ref_x = 0;
  ref_y = 0;
  internal_x = 0;
  internal_y = 0;
}

pub record Ppu : Type 0 where
  pub dispcnt : ℕ
  pub dispstat : ℕ
  pub vcount : ℕ
  pub bg : ℕ → BgRegs
  pub bldcnt : ℕ
  pub bldalpha : ℕ
  pub bldy : ℕ
  pub winh : ℕ → ℕ
  pub winv : ℕ → ℕ
  pub winin : ℕ
  pub winout : ℕ
  pub mosaic : ℕ
  pub palette : ℕ → ℕ
  pub vram : ℕ → ℕ
  pub oam : ℕ → ℕ
  pub framebuffer : ℕ → ℕ
  pub frame_ready : Bool

abbrev pub ppu_new : Ppu
ppu_new = record {
  dispcnt = 0x0080;
  dispstat = 0;
  vcount = 0;
  bg = λ i. bg_new;
  bldcnt = 0;
  bldalpha = 0;
  bldy = 0;
  winh = λ i. 0;
  winv = λ i. 0;
  winin = 0;
  winout = 0;
  mosaic = 0;
  palette = λ i. 0;
  vram = λ i. 0;
  oam = λ i. 0;
  framebuffer = λ i. 0;
  frame_ready = false;
}

-- `u32::from_le_bytes` of four neighbours.
abbrev pub word_at : (ℕ → ℕ) → ℕ → ℕ
word_at m i = m i + m (i + 1) * 2 ^ 8 + m (i + 2) * 2 ^ 16 + m (i + 3) * 2 ^ 24

-- The upper 32 KB of the mirror repeat the objects.
pub mirror_vram : ℕ → ℕ
mirror_vram addr = let off = low_bits 17 addr in if leb 0x1_8000 off then off - 0x8000 else off

-- `x & !3` and `x & !1`
abbrev pub align4 : ℕ → ℕ
align4 x = high_bits 2 x

abbrev pub align2 : ℕ → ℕ
align2 x = high_bits 1 x

pub read_palette32 : ℕ → Ppu → ℕ
read_palette32 addr ppu = word_at ppu.palette (align4 (low_bits 10 addr))

pub read_vram32 : ℕ → Ppu → ℕ
unfolding mirror_vram
read_vram32 addr ppu = word_at ppu.vram (align4 (mirror_vram addr))

pub read_oam32 : ℕ → Ppu → ℕ
read_oam32 addr ppu = word_at ppu.oam (align4 (low_bits 10 addr))

pub write_palette16 : ℕ → ℕ → Ppu → Ppu
write_palette16 addr val ppu = record ppu {
  palette = put_half ppu.palette (align2 (low_bits 10 addr)) val;
}

pub write_vram16 : ℕ → ℕ → Ppu → Ppu
unfolding mirror_vram
write_vram16 addr val ppu = record ppu { vram = put_half ppu.vram (align2 (mirror_vram addr)) val }

-- A byte reaches both halves of a background halfword, and no object.
pub write_vram8 : ℕ → ℕ → Ppu → Ppu
unfolding mirror_vram
write_vram8 addr val ppu =
    let i = mirror_vram addr in
    let bg_limit = if leb 3 (low_bits 3 ppu.dispcnt) then 0x1_4000 else 0x1_0000 in
    if ltb i bg_limit
    then record ppu { vram = update (update ppu.vram (align2 i) val) (align2 i + 1) val }
    else ppu

pub write_oam16 : ℕ → ℕ → Ppu → Ppu
write_oam16 addr val ppu = record ppu { oam = put_half ppu.oam (align2 (low_bits 10 addr)) val }

-- `(x << 4) >> 4` on a signed word
abbrev pub sign_extend28 : ℕ → ℕ
sign_extend28 x = let low = low_bits 28 x in if test_bit 27 x then low + (2 ^ 32 - 2 ^ 28) else low

abbrev pub put_low : ℕ → ℕ → ℕ
put_low x val = sign_extend28 (high_bits 16 x + val)

abbrev pub put_high : ℕ → ℕ → ℕ
put_high x val = sign_extend28 (low_bits 16 x + val * 2 ^ 16)

abbrev set_ref_x : ℕ → BgRegs → BgRegs
set_ref_x v bg = record bg { ref_x = v; internal_x = v }

abbrev set_ref_y : ℕ → BgRegs → BgRegs
set_ref_y v bg = record bg { ref_y = v; internal_y = v }

-- One of the eight parameters of an affine background.
pub write_bg_param : ℕ → ℕ → BgRegs → BgRegs
write_bg_param off val bg =
    if off == 0x0
    then record bg { pa = val }
    else if off == 0x2
    then record bg { pb = val }
    else if off == 0x4
    then record bg { pc = val }
    else if off == 0x6
    then record bg { pd = val }
    else if off == 0x8
    then set_ref_x (put_low bg.ref_x val) bg
    else if off == 0xa
    then set_ref_x (put_high bg.ref_x val) bg
    else if off == 0xc
    then set_ref_y (put_low bg.ref_y val) bg
    else if off == 0xe
    then set_ref_y (put_high bg.ref_y val) bg
    else bg

abbrev pub at_bg : ℕ → (BgRegs → BgRegs) → Ppu → Ppu
at_bg i f ppu = record ppu { bg = update ppu.bg i (f (ppu.bg i)) }

-- Registers 0x020 to 0x02e are of background 2, and 0x030 to 0x03e of background 3.
pub write_affine_param : ℕ → ℕ → Ppu → Ppu
unfolding write_bg_param
write_affine_param reg val ppu =
    if ltb reg 0x030
    then at_bg 2 (write_bg_param (reg - 0x020) val) ppu
    else at_bg 3 (write_bg_param (reg - 0x030) val) ppu

pub write_effect_reg : ℕ → ℕ → Ppu → Ppu
write_effect_reg reg val ppu =
    if reg == 0x040
    then record ppu { winh = update ppu.winh 0 val }
    else if reg == 0x042
    then record ppu { winh = update ppu.winh 1 val }
    else if reg == 0x044
    then record ppu { winv = update ppu.winv 0 val }
    else if reg == 0x046
    then record ppu { winv = update ppu.winv 1 val }
    else if reg == 0x048
    then record ppu { winin = val }
    else if reg == 0x04a
    then record ppu { winout = val }
    else if reg == 0x04c
    then record ppu { mosaic = val }
    else if reg == 0x050
    then record ppu { bldcnt = val }
    else if reg == 0x052
    then record ppu { bldalpha = val }
    else if reg == 0x054
    then record ppu { bldy = val }
    else ppu

-- `val as i16 as i32` of a word.
abbrev pub signed16 : ℕ → ℕ
signed16 v = if ltb v (2 ^ 15) then v else v + (2 ^ 32 - 2 ^ 16)
