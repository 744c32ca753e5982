-- ===== src/Ppu/Render.antt =====
-- The renderers of the backgrounds and the objects: candidates/gba-core/src/ppu.rs. The line buffers
-- are empty when a line starts, and a loop over the pixels of a line is a function of the pixel.
use gba_eval.Base.{
  ℕ, zero, suc, ◌+◌, ◌-◌, ◌*◌, ◌/◌, ◌%◌, ◌^◌, ◌==◌, ◌&&◌, ◌!=◌, not, Bool, if◌then◌else◌, ltb, leb,
  low_bits, field, test_bit, add32,
}
use gba_eval.DmaMemory.{half_at}
use gba_eval.Ppu.{Ppu, BgRegs, signed16}
use gba_eval.Ppu.Layers.{Line}

abbrev pub screen_w : ℕ
screen_w = 240

abbrev vram_size : ℕ
vram_size = 96 * 1024

abbrev pub byte_in : Ppu → ℕ → ℕ
byte_in ppu addr = if leb vram_size addr then 0 else ppu.vram addr

abbrev pub tile_base : BgRegs → ℕ
tile_base bg = field 2 2 bg.cnt * 0x4000

abbrev pub map_base : BgRegs → ℕ
map_base bg = field 8 5 bg.cnt * 0x800

abbrev pub screen_size : BgRegs → ℕ
screen_size bg = field 14 2 bg.cnt

-- Half of a byte, the even pixel in the low half; 0 is no color of any palette bank.
abbrev pub nibble_of : ℕ → ℕ → ℕ → ℕ
nibble_of x bank byte =
    let nibble = if x % 2 == 0 then low_bits 4 byte else field 4 4 byte in
    if nibble == 0 then 0 else bank * 16 + nibble

-- The map of a text background in its blocks of 32 by 32 tiles.
pub text_entry : BgRegs → ℕ → ℕ → ℕ
text_entry bg x y =
    let size = screen_size bg in
    let col = x / 8 in
    let row = y / 8 in
    let block =
      if size == 0
      then 0
      else if size == 1
      then col / 32
      else if size == 2
      then row / 32
      else col / 32 + row / 32 * 2 in
    map_base bg + block * 0x800 + (row % 32 * 32 + col % 32) * 2

-- The palette index of a text background at a pixel; 0 where it is transparent.
pub text_index : Ppu → BgRegs → ℕ → ℕ → ℕ
unfolding text_entry
text_index ppu bg line px =
    let size = screen_size bg in
    let map_w = if size % 2 == 0 then 256 else 512 in
    let map_h = if ltb size 2 then 256 else 512 in
    let x = (px + bg.xofs) % map_w in
    let y = (line + bg.yofs) % map_h in
    let addr = text_entry bg x y in
    if leb vram_size (addr + 1)
    then 0
    else let entry = half_at ppu.vram addr in
      let tile_num = low_bits 10 entry in
      let fy = if test_bit 11 entry then 7 - y % 8 else y % 8 in
      let fx = if test_bit 10 entry then 7 - x % 8 else x % 8 in
      if test_bit 7 bg.cnt
      then byte_in ppu (tile_base bg + tile_num * 64 + fy * 8 + fx)
      else nibble_of fx (field 12 4 entry)
          (byte_in ppu (tile_base bg + tile_num * 32 + fy * 4 + fx / 2))

-- A reference point after a number of pixels.
unfoldable pub walk : ℕ → ℕ → ℕ → ℕ
walk zero ref step = ref
walk (suc n) ref step = walk n (add32 ref step) step

-- `x >> 8` of a signed word
abbrev pub texel : ℕ → ℕ
texel x = if test_bit 31 x then x / 2 ^ 8 + (2 ^ 32 - 2 ^ 24) else x / 2 ^ 8

-- A signed word from 0 to below `size`.
abbrev pub inside : ℕ → ℕ → Bool
inside size x = not (test_bit 31 x) && ltb x size

unfoldable pub texture_at : BgRegs → ℕ → ℕ × ℕ
unfolding walk
texture_at bg px =
    (texel (walk px bg.internal_x (signed16 bg.pa)), texel (walk px bg.internal_y (signed16 bg.pc)))

-- A texel of an affine background.
pub affine_texel : Ppu → BgRegs → ℕ → ℕ → ℕ
affine_texel ppu bg tx ty =
    let size = 128 * 2 ^ screen_size bg in
    let map_addr = map_base bg + (ty / 8 * (size / 8) + tx / 8) in
    if leb vram_size map_addr
    then 0
    else byte_in ppu (tile_base bg + ppu.vram map_addr * 64 + ty % 8 * 8 + tx % 8)

-- The palette index of an affine background at a pixel. The size is a power of two, so that
-- `((tex % size) + size) % size` is the remainder of the word.
pub affine_index : Ppu → BgRegs → ℕ → ℕ
unfolding texture_at affine_texel
affine_index ppu bg px =
    let size = 128 * 2 ^ screen_size bg in
    let (tex_x, tex_y) = texture_at bg px in
    if test_bit 13 bg.cnt
    then affine_texel ppu bg (tex_x % size) (tex_y % size)
    else if inside size tex_x && inside size tex_y
    then affine_texel ppu bg tex_x tex_y
    else 0

-- A background in its line buffer.
abbrev pub plot : ℕ → (ℕ → ℕ) → Line → Line
plot i index l = record l {
  line_bg = λ b x. if (b == i) && ltb x screen_w && (index x != 0) then index x else l.line_bg b x;
}

-- Each block of the mosaic has the color of its first pixel; rows are not joined.
pub apply_bg_mosaic : Ppu → ℕ → Line → Line
apply_bg_mosaic ppu i l =
    let bg_h = low_bits 4 ppu.mosaic + 1 in
    if not (test_bit 6 (ppu.bg i).cnt) then l else record l {
      line_bg = λ b x.
          if (b == i) && ltb x screen_w then l.line_bg b (x / bg_h * bg_h) else l.line_bg b x;
    }

abbrev pub with_text : Ppu → ℕ → ℕ → Line → Line
with_text ppu line i l =
    if test_bit (8 + i) ppu.dispcnt
    then apply_bg_mosaic ppu i (plot i (text_index ppu (ppu.bg i) line) l)
    else l

abbrev pub with_affine : Ppu → ℕ → Line → Line
with_affine ppu i l =
    if test_bit (8 + i) ppu.dispcnt
    then apply_bg_mosaic ppu i (plot i (affine_index ppu (ppu.bg i)) l)
    else l
