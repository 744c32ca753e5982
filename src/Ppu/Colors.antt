-- ===== src/Ppu/Colors.antt =====
-- Colors and their blending: candidates/gba-core/src/ppu.rs. A color is a word 0xff_bb_gg_rr whose
-- three bytes repeat the top digits of their five-bit channels.
pub mod Fades
use gba_eval.Base.{
  ℕ, ◌+◌, ◌-◌, ◌*◌, ◌/◌, ◌%◌, ◌^◌, ◌<◌, ◌≤◌, ◌≡◌, refl, arith, ap, sym, ◌∙◌, Bool, true, false,
  if◌then◌else◌, field, bit_or, bit_or-fields, min, Bool-cases, inl, inr, ◌>>>◌, ◌<<<◌, leb,
}
use native.Mathlib.Nat.{mul-add}
use gba_eval.DmaMemory.{half_at}
use gba_eval.Ppu.{Ppu}

abbrev Channels : Type 0
Channels = ℕ × ℕ × ℕ

pub to_rgb5 : ℕ → Channels
to_rgb5 c = (field 3 5 c, field 11 5 c, field 19 5 c)

-- A channel of five digits on eight.
abbrev widen : ℕ → ℕ
widen c = bit_or (c <<< 3) (c >>> 2)

pub from_rgb5 : Channels → ℕ
from_rgb5 (r, g, b) =
    bit_or (bit_or (bit_or 0xff00_0000 (widen b <<< 16)) (widen g <<< 8)) (widen r)

abbrev rgba_channel : ℕ → ℕ
rgba_channel c = let wide = c <<< 3 in bit_or wide (wide >>> 5)

pub rgb555_to_rgba : ℕ → ℕ
rgb555_to_rgba c =
    let r = rgba_channel (field 0 5 c) in
    let g = rgba_channel (field 5 5 c) in
    let b = rgba_channel (field 10 5 c) in
    bit_or (bit_or (bit_or 0xff00_0000 (b <<< 16)) (g <<< 8)) r

pub backdrop_color : Ppu → ℕ
unfolding rgb555_to_rgba
backdrop_color ppu = rgb555_to_rgba (half_at ppu.palette 0)

pub palette_color : ℕ → Ppu → ℕ
unfolding rgb555_to_rgba backdrop_color
palette_color idx ppu =
    if leb 1024 (idx * 2 + 1)
    then backdrop_color ppu
    else rgb555_to_rgba (half_at ppu.palette (idx * 2))

abbrev mixed : ℕ → ℕ → ℕ → ℕ → ℕ
mixed eva evb c d = min ((c * eva + d * evb) / 16) 31

pub alpha_blend : ℕ → ℕ → ℕ → ℕ → ℕ
alpha_blend a b eva evb =
    let (r₁, g₁, b₁) = to_rgb5 a in
    let (r₂, g₂, b₂) = to_rgb5 b in
    from_rgb5 (mixed eva evb r₁ r₂, mixed eva evb g₁ g₂, mixed eva evb b₁ b₂)

abbrev lighter : ℕ → ℕ → ℕ
lighter evy c = min (c + (31 - c) * evy / 16) 31

abbrev darker : ℕ → ℕ → ℕ
darker evy c = c - c * evy / 16

pub brightness_increase : ℕ → ℕ → ℕ
brightness_increase c evy =
    let (r, g, b) = to_rgb5 c in from_rgb5 (lighter evy r, lighter evy g, lighter evy b)

pub brightness_decrease : ℕ → ℕ → ℕ
brightness_decrease c evy =
    let (r, g, b) = to_rgb5 c in from_rgb5 (darker evy r, darker evy g, darker evy b)
