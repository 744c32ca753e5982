-- ===== src/Ppu/Tests.antt =====
-- The picture unit on small states.
use gba_eval.Base.{ℕ, ◌-◌, ◌*◌, ◌+◌, ◌%◌, ◌^◌, ◌≤◌, ◌≡◌, arith, refl}
use gba_eval.Io.{io_new}
use gba_eval.Scheduler.{scheduler_new}
use gba_eval.Ppu.{Ppu, ppu_new}
use gba_eval.Ppu.Events.{on_hdraw, on_hblank}
use gba_eval.DmaMemory.{half_at}
use gba_eval.Ppu.{bg_new}
use gba_eval.Ppu.Colors.{
  palette_color, rgb555_to_rgba, alpha_blend, brightness_increase, brightness_decrease,
}
use gba_eval.Ppu.Colors.Fades.{fade_levels, palette_color-IsColor}
use gba_eval.Ppu.Layers.{Line, scan_layers}
use gba_eval.Ppu.Layers.Order.{first_two, opaque_layers, scan_layers-first_two}
use gba_eval.Ppu.Scanline.{compose_mode3}
use gba_eval.Ppu.Scanline.Bitmap.{compose_mode3-plain}
use gba_eval.Ppu.Lines.{IsLine, power_on, drawn, blanked, Reach-IsLine}

-- The second line, after the first.
abbrev drawn_line : Ppu
drawn_line = (on_hdraw (on_hblank ppu_new io_new scheduler_new).0 io_new scheduler_new).0

Reach-IsLine_example : IsLine drawn_line
Reach-IsLine_example =
    Reach-IsLine (drawn (blanked power_on io_new scheduler_new) io_new scheduler_new)

-- A unit with some memory, in line 3 of its bitmap.
abbrev bitmapped : Ppu
bitmapped = record ppu_new {
  dispcnt = 0x0f03;
  bg = λ i. record bg_new { cnt = i; internal_y = 3 * 0x100 };
  palette = λ i. i % 2 ^ 8;
  vram = λ i. i % 2 ^ 8;
}

abbrev shown : ℕ
shown = palette_color 5 bitmapped

fade_levels_example :
    (brightness_increase shown 0 ≡ shown)
    × (brightness_decrease shown 0 ≡ shown)
    × (brightness_increase shown 16 ≡ 0xffff_ffff)
    × (brightness_decrease shown 16 ≡ 0xff00_0000)
    × ((n : ℕ) → n ≤ 16 → alpha_blend shown shown n (16 - n) ≡ shown)
fade_levels_example = fade_levels shown (palette_color-IsColor 5 bitmapped)

-- Backgrounds 1 to 3 are opaque, and so is an object between the first two.
abbrev crowded : Line
crowded = record {
  line_bg = λ b x. b;
  line_obj = λ x. 7;
  line_obj_prio = λ x. 2;
  line_obj_mode = λ x. 1;
}

scan_layers-first_two_example :
    scan_layers bitmapped crowded 10 0x3f
    ≡ first_two bitmapped (opaque_layers bitmapped crowded 10 0x3f)
scan_layers-first_two_example = scan_layers-first_two bitmapped crowded 10 0x3f

compose_mode3-plain_example :
    compose_mode3 bitmapped 17 ≡ rgb555_to_rgba (half_at bitmapped.vram ((3 * 240 + 17) * 2))
compose_mode3-plain_example =
    compose_mode3-plain 17 3 bitmapped
      (record { across = refl; level = refl; left = refl; line = refl }) (omega arith) (omega arith)
