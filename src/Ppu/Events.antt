-- ===== src/Ppu/Events.antt =====
-- The events of a line: candidates/gba-core/src/ppu.rs.
use gba_eval.Base.{
  ℕ, ◌+◌, ◌/◌, ◌%◌, ◌==◌, Bool, true, false, if◌then◌else◌, ltb, u16, add32, test_bit, set_bit,
  clear_bit, ◌>>>◌,
}
use gba_eval.Io.{IoRegs, request_vblank_irq, request_hblank_irq, request_vcounter_irq}
use gba_eval.Scheduler.{Scheduler, push, h_draw, h_blank}
use gba_eval.Ppu.{Ppu, BgRegs, at_bg, signed16}
use gba_eval.Ppu.Render.{screen_w}
use gba_eval.Ppu.Scanline.{render_scanline}

-- The next line of an affine background, and the reload for a frame.
abbrev pub next_line : BgRegs → BgRegs
next_line bg = record bg {
  internal_x = add32 bg.internal_x (signed16 bg.pb);
  internal_y = add32 bg.internal_y (signed16 bg.pd);
}

abbrev pub latch_ref : BgRegs → BgRegs
latch_ref bg = record bg { internal_x = bg.ref_x; internal_y = bg.ref_y }

abbrev pub request_if : Bool → (IoRegs → IoRegs) → IoRegs → IoRegs
request_if true f io = f io
request_if false f io = io

-- The frame buffer with the line that has been drawn.
with_line : Ppu → ℕ → ℕ
with_line ppu i =
    if i / screen_w == ppu.vcount
    then render_scanline ppu ppu.vcount (i % screen_w)
    else ppu.framebuffer i

-- The end of the visible part of a line.
unfoldable pub on_hblank : Ppu → IoRegs → Scheduler → Ppu × IoRegs × Scheduler
unfolding request_hblank_irq push with_line
on_hblank ppu io sched =
    let ppu₁ =
      if ltb ppu.vcount 160
      then at_bg 3 next_line (at_bg 2 next_line (record ppu { framebuffer = with_line ppu }))
      else ppu in
    let ppu₂ = record ppu₁ { dispstat = set_bit 1 ppu₁.dispstat } in
    (ppu₂, request_if (test_bit 4 ppu₂.dispstat) request_hblank_irq io, push h_draw 272 sched)

-- The comparison of the line counter with the line that DISPSTAT names.
unfoldable pub match_vcount : Ppu → IoRegs → Ppu × IoRegs
unfolding request_vcounter_irq
match_vcount ppu io =
    if ppu.vcount == (ppu.dispstat >>> 8)
    then (
      record ppu { dispstat = set_bit 2 ppu.dispstat },
      request_if (test_bit 5 (set_bit 2 ppu.dispstat)) request_vcounter_irq io,
    )
    else (record ppu { dispstat = clear_bit 2 ppu.dispstat }, io)

-- The start and the end of the vertical blank.
unfoldable pub enter_line : Ppu → IoRegs → Ppu × IoRegs
unfolding request_vblank_irq
enter_line ppu io =
    if ppu.vcount == 160
    then (let ppu₁ = record ppu { dispstat = set_bit 0 ppu.dispstat; frame_ready = true } in
        (
          at_bg 3 latch_ref (at_bg 2 latch_ref ppu₁),
          request_if (test_bit 3 ppu₁.dispstat) request_vblank_irq io,
        ))
    else if ppu.vcount == 0
    then (record ppu { dispstat = clear_bit 0 ppu.dispstat }, io)
    else (ppu, io)

-- The start of a line.
unfoldable pub on_hdraw : Ppu → IoRegs → Scheduler → Ppu × IoRegs × Scheduler
on_hdraw ppu io sched =
    let ppu₁ = record ppu {
      dispstat = clear_bit 1 ppu.dispstat;
      vcount = u16 (ppu.vcount + 1) % 228;
    } in
    let (ppu₂, io₂) = match_vcount ppu₁ io in
    let (ppu₃, io₃) = enter_line ppu₂ io₂ in (ppu₃, io₃, push h_blank 960 sched)
