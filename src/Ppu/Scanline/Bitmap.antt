-- ===== src/Ppu/Scanline/Bitmap.antt =====
-- A bitmap that is not scaled.
use gba_eval.Base.{ℕ, zero, suc, ◌+◌, ◌*◌, ◌^◌, ◌<◌, ◌≡◌, refl, arith, add32}
use gba_eval.DmaMemory.{half_at}
use gba_eval.Ppu.{Ppu, BgRegs}
use gba_eval.Ppu.Colors.{rgb555_to_rgba}
use gba_eval.Ppu.Render.{walk, texture_at}
use gba_eval.Ppu.Scanline.{compose_mode3, bitmap}

-- The background is at a line of its texture and steps from texel to texel.
pub record IsPlain (y : ℕ) (bg : BgRegs) : Type 0 where
  pub across : bg.pa ≡ 0x100
  pub level : bg.pc ≡ 0
  pub left : bg.internal_x ≡ 0
  pub line : bg.internal_y ≡ y * 0x100

walk-plain : (n r : ℕ) → r + n < 2 ^ 23 → walk n (r * 0x100) 0x100 ≡ (r + n) * 0x100
unfolding walk
walk-plain zero r h = omega arith
walk-plain (suc n) r h =
    let next : add32 (r * 0x100) 0x100 ≡ (r + 1) * 0x100 = omega arith in
    let same : r + 1 + n ≡ r + suc n = omega arith in
    rw (next, walk-plain n (r + 1) (omega arith), same) refl

walk-level : (n r : ℕ) → r < 2 ^ 32 → walk n r 0 ≡ r
unfolding walk
walk-level zero r h = refl
walk-level (suc n) r h = let same : add32 r 0 ≡ r = omega arith in rw same (walk-level n r h)

texture_at-plain :
    {y : ℕ} (bg : BgRegs) (x : ℕ)
    → IsPlain y bg
    → y < 2 ^ 23
    → x < 2 ^ 23
    → texture_at bg x ≡ (x, y)
unfolding texture_at
texture_at-plain {y} bg x p hy hx =
    rw (p.across, p.level, p.left, p.line)
      (ground (arith, walk-plain x 0 (omega arith), walk-level x (y * 0x100) (omega arith)))

-- On line `y`, when background 2 steps through its texture at line `y` by one texel a pixel, mode 3
-- shows the bitmap in video memory pixel by pixel.
pub compose_mode3-plain :
    (x y : ℕ) (ppu : Ppu)
    → IsPlain y (ppu.bg 2)
    → x < 240
    → y < 160
    → compose_mode3 ppu x ≡ rgb555_to_rgba (half_at ppu.vram ((y * 240 + x) * 2))
unfolding compose_mode3 bitmap
compose_mode3-plain x y ppu p hx hy =
    rw (texture_at-plain (ppu.bg 2) x p (omega arith) (omega arith)) (ground arith)
