-- ===== src/Ppu/Scanline.antt =====
-- A line on the screen, by the mode of the picture unit: candidates/gba-core/src/ppu.rs.
pub mod Bitmap
use gba_eval.Base.{
  ℕ, ◌+◌, ◌-◌, ◌*◌, ◌/◌, ◌%◌, ◌^◌, ◌==◌, ◌&&◌, ◌||◌, ◌!=◌, not, Bool, true, false, if◌then◌else◌,
  low_bits, test_bit, ltb,
}
use gba_eval.DmaMemory.{half_at}
use gba_eval.Ppu.{Ppu}
use gba_eval.Ppu.Colors.{backdrop_color, rgb555_to_rgba, palette_color}
use gba_eval.Ppu.Layers.{Line, compose_layers}
use gba_eval.Ppu.Render.{texture_at, inside, with_text, with_affine}
use gba_eval.Ppu.Sprites.{render_sprites}

abbrev empty_line : Line
empty_line = record {
  line_bg = λ b x. 0;
  line_obj = λ x. 0;
  line_obj_prio = λ x. 3;
  line_obj_mode = λ x. 0;
}

-- A bitmap of a width and a height that background 2 maps to the screen.
bitmap : Ppu → ℕ → ℕ → (ℕ → ℕ → ℕ) → ℕ → ℕ
bitmap ppu w h color x =
    let (tex_x, tex_y) = texture_at (ppu.bg 2) x in
    if inside w tex_x && inside h tex_y then color tex_x tex_y else backdrop_color ppu

abbrev page : Ppu → ℕ
page ppu = if test_bit 4 ppu.dispcnt then 0xa000 else 0

pub compose_mode3 : Ppu → ℕ → ℕ
unfolding bitmap
compose_mode3 ppu x =
    bitmap ppu 240 160 (λ tx ty. rgb555_to_rgba (half_at ppu.vram ((ty * 240 + tx) * 2))) x

-- The objects lie over the bitmap.
pub compose_mode4 : Ppu → Line → ℕ → ℕ
unfolding bitmap
compose_mode4 ppu l x =
    let color = λ (tx ty : ℕ).
      let idx = ppu.vram (page ppu + ty * 240 + tx) in
      if idx == 0 then backdrop_color ppu else palette_color idx ppu in
    if test_bit 12 ppu.dispcnt && (l.line_obj x != 0)
    then palette_color (256 + l.line_obj x) ppu
    else bitmap ppu 240 160 color x

pub compose_mode5 : Ppu → ℕ → ℕ
unfolding bitmap
compose_mode5 ppu x =
    bitmap ppu 160 128 (λ tx ty. rgb555_to_rgba (half_at ppu.vram (page ppu + (ty * 160 + tx) * 2)))
      x

-- The backgrounds that a tiled mode draws, over the objects.
pub tiled_line : Ppu → ℕ → ℕ → Line → Line
tiled_line ppu line mode l =
    let text = with_text ppu line in
    let affine = with_affine ppu in
    if mode == 0
    then text 3 (text 2 (text 1 (text 0 l)))
    else if mode == 1
    then affine 2 (text 1 (text 0 l))
    else affine 3 (affine 2 l)

-- The color of a pixel of a line; a blanked screen is white.
pub render_scanline : Ppu → ℕ → ℕ → ℕ
unfolding tiled_line compose_mode3 compose_mode4 compose_mode5
render_scanline ppu line x =
    let mode = low_bits 3 ppu.dispcnt in
    let objects =
      if test_bit 12 ppu.dispcnt then render_sprites ppu line empty_line else empty_line in
    if test_bit 7 ppu.dispcnt
    then 0xffff_ffff
    else if ltb mode 3
    then compose_layers ppu (tiled_line ppu line mode objects) x
    else if mode == 3
    then compose_mode3 ppu x
    else if mode == 4
    then compose_mode4 ppu objects x
    else if mode == 5
    then compose_mode5 ppu x
    else backdrop_color ppu
