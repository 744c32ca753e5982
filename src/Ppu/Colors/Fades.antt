-- ===== src/Ppu/Colors/Fades.antt =====
-- The arithmetic of colors.
use gba_eval.Base.{
  ℕ, ◌+◌, ◌-◌, ◌*◌, ◌/◌, ◌^◌, ◌<◌, ◌≤◌, ◌≡◌, refl, arith, ap, sym, ◌∙◌, field, bit_or-fields,
  Bool-cases, inl, inr, leb,
}
use native.Mathlib.Nat.{mul-add}
use gba_eval.DmaMemory.{half_at}
use gba_eval.Ppu.{Ppu}
use gba_eval.Ppu.Colors.{
  to_rgb5, from_rgb5, rgb555_to_rgba, backdrop_color, palette_color, alpha_blend,
  brightness_increase, brightness_decrease, widen, mixed, lighter, darker,
}

-- What a color is as a number.
widen_lem : (c : ℕ) → c < 2 ^ 5 → widen c ≡ c * 2 ^ 3 + c / 2 ^ 2
widen_lem c h = bit_or-fields 3 c (c / 2 ^ 2) (omega arith)

from_rgb5_lem :
    (r g b : ℕ)
    → r < 2 ^ 5
    → g < 2 ^ 5
    → b < 2 ^ 5
    → from_rgb5 (r, g, b)
      ≡ 0xff * 2 ^ 24
        + (b * 2 ^ 3 + b / 2 ^ 2) * 2 ^ 16
        + (g * 2 ^ 3 + g / 2 ^ 2) * 2 ^ 8
        + (r * 2 ^ 3 + r / 2 ^ 2)
unfolding from_rgb5
from_rgb5_lem r g b hr hg hb =
    let blue : ℕ = b * 2 ^ 3 + b / 2 ^ 2 in
    let green : ℕ = g * 2 ^ 3 + g / 2 ^ 2 in
    let red : ℕ = r * 2 ^ 3 + r / 2 ^ 2 in
    let first = bit_or-fields 24 0xff (blue * 2 ^ 16) (omega arith) in
    let second = bit_or-fields 16 (0xff * 2 ^ 8 + blue) (green * 2 ^ 8) (omega arith) in
    let third = bit_or-fields 8 (0xff * 2 ^ 16 + blue * 2 ^ 8 + green) red (omega arith) in
    rw (widen_lem r hr, widen_lem g hg, widen_lem b hb) (ground (arith, first, second, third))

-- The channels that make a color are those that it has.
to_rgb5-from_rgb5 :
    (r g b : ℕ) → r < 2 ^ 5 → g < 2 ^ 5 → b < 2 ^ 5 → to_rgb5 (from_rgb5 (r, g, b)) ≡ (r, g, b)
unfolding to_rgb5
to_rgb5-from_rgb5 r g b hr hg hb = rw (from_rgb5_lem r g b hr hg hb) (ground arith)

-- What the palette holds is a color.
rgb555_to_rgba_lem : (c : ℕ) → rgb555_to_rgba c ≡ from_rgb5 (field 0 5 c, field 5 5 c, field 10 5 c)
unfolding rgb555_to_rgba from_rgb5
rgb555_to_rgba_lem c = rw (top (field 0 5 c), top (field 5 5 c), top (field 10 5 c)) refl
  where
    top : (x : ℕ) → x * 2 ^ 3 / 2 ^ 5 ≡ x / 2 ^ 2
    top x = omega arith

-- A pixel on the screen is a color of three channels.
pub IsColor : ℕ → Type 0
IsColor c = (r g b : ℕ) × (r < 2 ^ 5) × (g < 2 ^ 5) × (b < 2 ^ 5) × (c ≡ from_rgb5 (r, g, b))

shown : (c : ℕ) → IsColor (rgb555_to_rgba c)
unfolding IsColor
shown c = (
  field 0 5 c,
  field 5 5 c,
  field 10 5 c,
  omega arith,
  omega arith,
  omega arith,
  rgb555_to_rgba_lem c,
)

pub palette_color-IsColor : (idx : ℕ) (ppu : Ppu) → IsColor (palette_color idx ppu)
unfolding palette_color backdrop_color
palette_color-IsColor idx ppu = elim (Bool-cases (leb 1024 (idx * 2 + 1))) [
  | inl e ↦ rw e (shown (half_at ppu.palette 0))
  | inr e ↦ rw e (shown (half_at ppu.palette (idx * 2)))
]

lighter_none : (x : ℕ) → x < 2 ^ 5 → lighter 0 x ≡ x
lighter_none x h = omega arith

darker_none : (x : ℕ) → darker 0 x ≡ x
darker_none x = omega arith

lighter_all : (x : ℕ) → x < 2 ^ 5 → lighter 16 x ≡ 31
lighter_all x h = omega arith

darker_all : (x : ℕ) → darker 16 x ≡ 0
darker_all x = omega arith

mixed_same : (n x : ℕ) → n ≤ 16 → x < 2 ^ 5 → mixed n (16 - n) x x ≡ x
mixed_same n x hn hx =
    let whole : n + (16 - n) ≡ 16 = omega arith in
    let product : x * n + x * (16 - n) ≡ x * 16 =
      sym (mul-add x n (16 - n)) ∙ ap (λ (t : ℕ). x * t) whole in
    omega (arith, product)

-- At level 0 a fade changes no color, and at level 16 it gives white or black; a color that is mixed
-- with itself by two weights whose sum is 16 stays as it is.
pub fade_levels :
    (c : ℕ)
    → IsColor c
    → (brightness_increase c 0 ≡ c)
      × (brightness_decrease c 0 ≡ c)
      × (brightness_increase c 16 ≡ 0xffff_ffff)
      × (brightness_decrease c 16 ≡ 0xff00_0000)
      × ((n : ℕ) → n ≤ 16 → alpha_blend c c n (16 - n) ≡ c)
unfolding IsColor brightness_increase brightness_decrease alpha_blend
fade_levels c (r, g, b, hr, hg, hb, e) =
    rw (channels, e)
      (
        rw (lighter_none r hr, lighter_none g hg, lighter_none b hb) refl,
        rw (darker_none r, darker_none g, darker_none b) refl,
        rw (lighter_all r hr, lighter_all g hg, lighter_all b hb)
            (from_rgb5_lem 31 31 31 (omega arith) (omega arith) (omega arith)),
        rw (darker_all r, darker_all g, darker_all b)
            (from_rgb5_lem 0 0 0 (omega arith) (omega arith) (omega arith)),
        λ n h. rw (mixed_same n r h hr, mixed_same n g h hg, mixed_same n b h hb) refl,
      )
  where
    channels : to_rgb5 c ≡ (r, g, b)
    channels = ap to_rgb5 e ∙ to_rgb5-from_rgb5 r g b hr hg hb
