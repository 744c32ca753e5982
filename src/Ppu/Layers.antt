-- ===== src/Ppu/Layers.antt =====
-- The composition of the layers of a line: candidates/gba-core/src/ppu.rs. The line buffers, which
-- the renderers of the backgrounds and the objects fill, are the record `Line`.
pub mod Order
use gba_eval.Base.{
  ℕ, zero, suc, ◌+◌, ◌-◌, ◌*◌, ◌/◌, ◌%◌, ◌^◌, ◌==◌, ◌&&◌, ◌||◌, ◌!=◌, not, Bool, true, false,
  if◌then◌else◌, Option, some, none, ltb, leb, min, low_bits, field, test_bit, ◌>>>◌,
}
use gba_eval.Ppu.{Ppu, BgRegs}
use gba_eval.Ppu.Colors.{
  backdrop_color, palette_color, alpha_blend, brightness_increase, brightness_decrease,
}

pub record Line : Type 0 where
  pub line_bg : ℕ → ℕ → ℕ
  pub line_obj : ℕ → ℕ
  pub line_obj_prio : ℕ → ℕ
  pub line_obj_mode : ℕ → ℕ

abbrev pub layer_obj : ℕ
layer_obj = 4

abbrev pub layer_bd : ℕ
layer_bd = 5

pub in_win_h : ℕ → ℕ → Bool
in_win_h winh x =
    let left = winh >>> 8 in
    let right = low_bits 8 winh in
    if leb left right then leb left x && ltb x right else leb left x || ltb x right

pub in_win_v : ℕ → ℕ → Bool
in_win_v winv y =
    let top = winv >>> 8 in
    let bottom = low_bits 8 winv in
    if leb top bottom then leb top y && ltb y bottom else leb top y || ltb y bottom

-- What the windows let through at a pixel: the four backgrounds, the objects and the blending.
pub get_window_flags : Ppu → Line → ℕ → Bool → Bool → Bool → Bool → Bool → ℕ
unfolding in_win_h
get_window_flags ppu line x win0 win1 objwin win0_y win1_y =
    if win0 && win0_y && in_win_h (ppu.winh 0) x
    then low_bits 6 ppu.winin
    else if win1 && win1_y && in_win_h (ppu.winh 1) x
    then field 8 6 ppu.winin
    else if objwin && (line.line_obj_mode x == 2)
    then field 8 6 ppu.winout
    else low_bits 6 ppu.winout

-- The two layers in front that the search has found.
pub record Pixel : Type 0 where
  pub top_color : ℕ
  pub top_layer : ℕ
  pub bot_color : ℕ
  pub bot_layer : ℕ
  pub obj_semi : Bool
  pub found_top : Bool

-- A layer that is opaque at the pixel: its color, its number and whether it is a half-transparent
-- object.
pub Opaque : Type 0
Opaque = ℕ × ℕ × Bool

-- The search so far, and whether it has been left.
abbrev pub Search : Type 0
Search = Pixel × Bool

pub place : Opaque → Pixel → Search
unfolding Opaque
place (c, l, semi) p =
    if not p.found_top
    then (record p { top_color = c; top_layer = l; obj_semi = semi; found_top = true }, false)
    else (record p { bot_color = c; bot_layer = l }, true)

-- The object at the pixel, if its priority is the one looked at.
pub obj_at : Ppu → Line → ℕ → ℕ → ℕ → Option Opaque
unfolding Opaque
obj_at ppu line x flags prio =
    if (line.line_obj x != 0) && (line.line_obj_prio x == prio) && test_bit 4 flags
    then some (palette_color (256 + line.line_obj x) ppu, layer_obj, line.line_obj_mode x == 1)
    else none

-- Background `i` at the pixel, if its priority is the one looked at.
pub bg_at : Ppu → Line → ℕ → ℕ → ℕ → ℕ → Option Opaque
unfolding Opaque
bg_at ppu line x flags prio i =
    if not (test_bit (8 + i) ppu.dispcnt)
    then none
    else if low_bits 2 (ppu.bg i).cnt != prio
    then none
    else if not (test_bit i flags)
    then none
    else if line.line_bg i x == 0
    then none
    else some (palette_color (line.line_bg i x) ppu, i, false)

pub offer : Option Opaque → Search → Search
unfolding place
offer none s = s
offer (some o) (p, true) = (p, true)
offer (some o) (p, false) = place o p

-- An object is looked for only while a place for it is left.
pub offer_obj : Option Opaque → Search → Search
unfolding offer
offer_obj o (p, left) =
    if not p.found_top || (p.bot_layer == layer_bd) then offer o (p, left) else (p, left)

-- The layers of one priority: the object, and the backgrounds in their order.
pub scan_prio : Ppu → Line → ℕ → ℕ → ℕ → Search → Search
unfolding offer offer_obj
scan_prio ppu line x flags prio s =
    let bg = bg_at ppu line x flags prio in
    offer (bg 3)
      (offer (bg 2) (offer (bg 1) (offer (bg 0) (offer_obj (obj_at ppu line x flags prio) s))))

abbrev pub nothing_found : Ppu → Search
nothing_found ppu = (
  record {
    top_color = backdrop_color ppu;
    top_layer = layer_bd;
    bot_color = backdrop_color ppu;
    bot_layer = layer_bd;
    obj_semi = false;
    found_top = false;
  },
  false,
)

pub scan_layers : Ppu → Line → ℕ → ℕ → Search
scan_layers ppu line x flags =
    let scan = scan_prio ppu line x flags in scan 3 (scan 2 (scan 1 (scan 0 (nothing_found ppu))))

pub blend : Ppu → ℕ → Pixel → ℕ
blend ppu flags p =
    let blend_mode = field 6 2 ppu.bldcnt in
    let eva = min (low_bits 5 ppu.bldalpha) 16 in
    let evb = min (field 8 5 ppu.bldalpha) 16 in
    let evy = min (low_bits 5 ppu.bldy) 16 in
    let is_first = test_bit p.top_layer ppu.bldcnt in
    let is_second = test_bit (8 + p.bot_layer) ppu.bldcnt in
    if not (test_bit 5 flags)
    then p.top_color
    else if p.obj_semi && is_second
    then alpha_blend p.top_color p.bot_color eva evb
    else if (blend_mode == 1) && is_first && is_second
    then alpha_blend p.top_color p.bot_color eva evb
    else if (blend_mode == 2) && is_first
    then brightness_increase p.top_color evy
    else if (blend_mode == 3) && is_first
    then brightness_decrease p.top_color evy
    else p.top_color

abbrev window_flags : Ppu → Line → ℕ → ℕ
window_flags ppu line x =
    let win0 = test_bit 13 ppu.dispcnt in
    let win1 = test_bit 14 ppu.dispcnt in
    let objwin = test_bit 15 ppu.dispcnt in
    if win0 || win1 || objwin
    then get_window_flags ppu line x win0 win1 objwin (in_win_v (ppu.winv 0) ppu.vcount)
        (in_win_v (ppu.winv 1) ppu.vcount)
    else 0x3f

-- The color of a pixel of the line.
pub compose_layers : Ppu → Line → ℕ → ℕ
compose_layers ppu line x =
    let flags = window_flags ppu line x in blend ppu flags (scan_layers ppu line x flags).0
