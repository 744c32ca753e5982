-- ===== src/Ppu/Sprites.antt =====
-- The objects of a line: candidates/gba-core/src/ppu.rs.
use gba_eval.Base.{
  ℕ, zero, suc, ◌+◌, ◌-◌, ◌*◌, ◌/◌, ◌%◌, ◌^◌, ◌==◌, ◌&&◌, ◌!=◌, not, Bool, if◌then◌else◌, Option,
  some, none, ltb, leb, low_bits, field, test_bit, add32, sub32, u32,
}
use gba_eval.DmaMemory.{half_at}
use gba_eval.Ppu.{Ppu, signed16}
use gba_eval.Ppu.Layers.{Line}
use gba_eval.Ppu.Render.{screen_w, byte_in, nibble_of, texel, inside}

pub record Sprite : Type 0 where
  pub attr0 : ℕ
  pub attr1 : ℕ
  pub attr2 : ℕ

pub sprite_of : Ppu → ℕ → Sprite
sprite_of ppu i = record {
  attr0 = half_at ppu.oam (i * 8);
  attr1 = half_at ppu.oam (i * 8 + 2);
  attr2 = half_at ppu.oam (i * 8 + 4);
}

abbrev is_affine : Sprite → Bool
is_affine s = test_bit 8 s.attr0

-- Width and height by the shape and the size; there is no fourth shape.
pub dimensions : ℕ → ℕ → Option (ℕ × ℕ)
dimensions shape size =
    if shape == 0
    then some (8 * 2 ^ size, 8 * 2 ^ size)
    else if shape == 1
    then some (
        if size == 0
        then (16, 8)
        else if size == 1
        then (32, 8)
        else if size == 2
        then (32, 16)
        else (64, 32))
    else if shape == 2
    then some (
        if size == 0
        then (8, 16)
        else if size == 1
        then (8, 32)
        else if size == 2
        then (16, 32)
        else (32, 64))
    else none

-- The distance of a pixel from the origin of the object, which lies before the screen, by `wrap`
-- pixels, from `limit` on; nothing if the pixel is before it.
pub from_origin : ℕ → ℕ → ℕ → ℕ → Option ℕ
from_origin limit wrap origin x =
    if leb limit origin
    then some (x + wrap - origin)
    else if leb origin x
    then some (x - origin)
    else none

-- The palette index of a texel of an object, in the tiles of its row or of a grid of 32 tiles.
pub get_sprite_pixel : Ppu → Sprite → ℕ → ℕ → ℕ → ℕ
get_sprite_pixel ppu s w x y =
    let is_8bpp = test_bit 13 s.attr0 in
    let base_tile = low_bits 10 s.attr2 in
    let unit = if is_8bpp then 2 else 1 in
    let tile_num =
      if test_bit 6 ppu.dispcnt
      then base_tile + (y / 8 * (w / 8) + x / 8) * unit
      else low_bits 10 (base_tile + y / 8 * 32 + x / 8 * unit) in
    let tile_byte_base = 0x1_0000 + tile_num * 32 in
    if is_8bpp
    then byte_in ppu (tile_byte_base + y % 8 * 8 + x % 8)
    else nibble_of x (field 12 4 s.attr2) (byte_in ppu (tile_byte_base + y % 8 * 4 + x % 8 / 2))

-- A parameter of the matrix of an affine object, as a signed word.
abbrev matrix : Ppu → Sprite → ℕ → ℕ
matrix ppu s off = signed16 (half_at ppu.oam (field 9 5 s.attr1 * 32 + off))

-- The palette index of an affine object at a distance from its origin, 0 outside its texture.
pub affine_pixel : Ppu → Sprite → ℕ → ℕ → ℕ → ℕ → ℕ → ℕ → ℕ
affine_pixel ppu s w h render_w render_h lx ly =
    let ix = sub32 lx (render_w / 2) in
    let iy = sub32 ly (render_h / 2) in
    let tex_x = add32 (texel (u32 (matrix ppu s 6 * ix + matrix ppu s 14 * iy))) (w / 2) in
    let tex_y = add32 (texel (u32 (matrix ppu s 22 * ix + matrix ppu s 30 * iy))) (h / 2) in
    if inside w tex_x && inside h tex_y then get_sprite_pixel ppu s w tex_x tex_y else 0

pub plain_pixel : Ppu → Sprite → ℕ → ℕ → ℕ → ℕ → ℕ
plain_pixel ppu s w h lx ly =
    let tx = if test_bit 12 s.attr1 then w - 1 - lx else lx in
    let ty = if test_bit 13 s.attr1 then h - 1 - ly else ly in get_sprite_pixel ppu s w tx ty

-- The palette index of an object at a pixel of the screen; 0 where it is transparent or absent.
pub sprite_index : Ppu → Sprite → ℕ → ℕ → ℕ
unfolding affine_pixel plain_pixel
sprite_index ppu s line x = elim (dimensions (field 14 2 s.attr0) (field 14 2 s.attr1)) [
  | none ↦ 0
  | some (w, h) ↦
      let double = is_affine s && test_bit 9 s.attr0 in
      let render_w = if double then w * 2 else w in
      let render_h = if double then h * 2 else h in
      elim (from_origin 160 256 (low_bits 8 s.attr0) line) [
        | none ↦ 0
        | some ly ↦ elim (from_origin 240 512 (low_bits 9 s.attr1) x) [
          | none ↦ 0
          | some lx ↦
              if not (ltb lx render_w && ltb ly render_h)
              then 0
              else if is_affine s
              then affine_pixel ppu s w h render_w render_h lx ly
              else plain_pixel ppu s w h lx ly
        ]
      ]
]

-- An object over those drawn before it; one whose mode says so is hidden.
pub render_sprite : Ppu → ℕ → ℕ → Line → Line
unfolding sprite_of sprite_index
render_sprite ppu line i l =
    let s = sprite_of ppu i in
    let shows = λ (x : ℕ). ltb x screen_w && (sprite_index ppu s line x != 0) in
    if field 8 2 s.attr0 == 2 then l else record l {
      line_obj = λ x. if shows x then sprite_index ppu s line x else l.line_obj x;
      line_obj_prio = λ x. if shows x then field 10 2 s.attr2 else l.line_obj_prio x;
      line_obj_mode = λ x. if shows x then field 10 2 s.attr0 else l.line_obj_mode x;
    }

-- The objects below a number, from the last to the first, so that the first is in front.
pub render_sprites_below : ℕ → Ppu → ℕ → Line → Line
unfolding render_sprite
render_sprites_below zero ppu line l = l
render_sprites_below (suc i) ppu line l =
    render_sprites_below i ppu line (render_sprite ppu line i l)

pub render_sprites : Ppu → ℕ → Line → Line
render_sprites ppu line l = render_sprites_below 128 ppu line l
