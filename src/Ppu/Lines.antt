-- ===== src/Ppu/Lines.antt =====
-- The line counter and the vertical blank.
use gba_eval.Base.{
  ℕ, ◌+◌, ◌%◌, ◌<◌, ◌==◌, ◌≡◌, refl, arith, ap, ◌∙◌, leb, test_bit, set_bit, clear_bit, u16, ltb,
  high_bits, Bool-cases, inl, inr, false,
}
use gba_eval.Io.{IoRegs}
use gba_eval.Io.Registers.{io_write16, io_write8, io_read16, put_byte}
use gba_eval.Scheduler.{Scheduler}
use gba_eval.Ppu.{
  Ppu, ppu_new, write_affine_param, write_effect_reg, write_palette16, write_vram16, write_vram8,
  write_oam16,
}
use gba_eval.Ppu.Events.{on_hdraw, on_hblank, match_vcount, enter_line}

-- The counter names one of 228 lines, and the flag of the vertical blank is set from line 160 to
-- the last.
pub record IsLine (ppu : Ppu) : Type 0 where
  pub in_frame : ppu.vcount < 228
  pub blank : test_bit 0 ppu.dispstat ≡ leb 160 ppu.vcount

-- What happens to the unit: its events, every write of its registers and memories, and what the
-- machine sets in it, which are the interrupt of the vertical blank and the start of a frame.
pub data Reach : Ppu → Type 0 where
  power_on : Reach ppu_new
  drawn : {ppu : Ppu} → Reach ppu → (io : IoRegs) (s : Scheduler) → Reach (on_hdraw ppu io s).0
  blanked : {ppu : Ppu} → Reach ppu → (io : IoRegs) (s : Scheduler) → Reach (on_hblank ppu io s).0
  written :
      {ppu : Ppu} → Reach ppu → (addr val : ℕ) (io : IoRegs) → Reach (io_write16 addr val ppu io).0
  written8 :
      {ppu : Ppu} → Reach ppu → (addr val : ℕ) (io : IoRegs) → Reach (io_write8 addr val ppu io).0
  affine : {ppu : Ppu} → Reach ppu → (reg val : ℕ) → Reach (write_affine_param reg val ppu)
  effect : {ppu : Ppu} → Reach ppu → (reg val : ℕ) → Reach (write_effect_reg reg val ppu)
  palette : {ppu : Ppu} → Reach ppu → (addr val : ℕ) → Reach (write_palette16 addr val ppu)
  vram16 : {ppu : Ppu} → Reach ppu → (addr val : ℕ) → Reach (write_vram16 addr val ppu)
  vram8 : {ppu : Ppu} → Reach ppu → (addr val : ℕ) → Reach (write_vram8 addr val ppu)
  oam : {ppu : Ppu} → Reach ppu → (addr val : ℕ) → Reach (write_oam16 addr val ppu)
  late_irq : {ppu : Ppu} → Reach ppu → Reach (record ppu { dispstat = set_bit 3 ppu.dispstat })
  frame : {ppu : Ppu} → Reach ppu → Reach (record ppu { frame_ready = false })

match_keeps :
    (ppu : Ppu) (io : IoRegs)
    → let p = (match_vcount ppu io).0 in
      (p.vcount ≡ ppu.vcount) × (test_bit 0 p.dispstat ≡ test_bit 0 ppu.dispstat)
unfolding match_vcount
match_keeps ppu io = ground arith

-- Entering a line that follows line `v` of a frame.
enter-IsLine :
    (ppu : Ppu) (io : IoRegs) (v : ℕ)
    → v < 228
    → test_bit 0 ppu.dispstat ≡ leb 160 v
    → ppu.vcount ≡ (v + 1) % 228
    → IsLine (enter_line ppu io).0
unfolding enter_line
enter-IsLine ppu io v h flag e = ground arith

pub on_hdraw-IsLine :
    {ppu : Ppu} (io : IoRegs) (s : Scheduler) → IsLine ppu → IsLine (on_hdraw ppu io s).0
unfolding on_hdraw
on_hdraw-IsLine {ppu} io s l =
    let (v, b) = match_keeps next io in
    enter-IsLine (match_vcount next io).0 (match_vcount next io).1 ppu.vcount l.in_frame
      (b ∙ unblanked ∙ l.blank) (v ∙ omega (arith, l.in_frame))
  where
    next : Ppu
    next = record ppu { dispstat = clear_bit 1 ppu.dispstat; vcount = u16 (ppu.vcount + 1) % 228 }

    unblanked : test_bit 0 (clear_bit 1 ppu.dispstat) ≡ test_bit 0 ppu.dispstat
    unblanked = ap (λ (t : ℕ). t == 1) (omega arith)

pub on_hblank-IsLine :
    {ppu : Ppu} (io : IoRegs) (s : Scheduler) → IsLine ppu → IsLine (on_hblank ppu io s).0
unfolding on_hblank
on_hblank-IsLine {ppu} io s l = ground arith

pub io_write16-IsLine :
    {ppu : Ppu} (addr val : ℕ) (io : IoRegs) → IsLine ppu → IsLine (io_write16 addr val ppu io).0
unfolding io_write16
io_write16-IsLine {ppu} addr val io l = ground arith

io_write8-IsLine :
    {ppu : Ppu} (addr val : ℕ) (io : IoRegs) → IsLine ppu → IsLine (io_write8 addr val ppu io).0
unfolding io_write8
io_write8-IsLine {ppu} addr val io l = elim (Bool-cases (addr == 0x0400_0301)) [
  | inl e ↦ rw e l
  | inr e ↦
      let aligned = high_bits 1 addr in
      rw e (io_write16-IsLine aligned (put_byte addr val (io_read16 aligned ppu io)) io l)
]

affine-IsLine : {ppu : Ppu} (reg val : ℕ) → IsLine ppu → IsLine (write_affine_param reg val ppu)
unfolding write_affine_param
affine-IsLine {ppu} reg val l = elim (Bool-cases (ltb reg 0x030)) [
  | inl e ↦ rw e (record { in_frame = l.in_frame; blank = l.blank })
  | inr e ↦ rw e (record { in_frame = l.in_frame; blank = l.blank })
]

effect-IsLine : {ppu : Ppu} (reg val : ℕ) → IsLine ppu → IsLine (write_effect_reg reg val ppu)
unfolding write_effect_reg
effect-IsLine {ppu} reg val l = ground arith

vram8-IsLine : {ppu : Ppu} (addr val : ℕ) → IsLine ppu → IsLine (write_vram8 addr val ppu)
unfolding write_vram8
vram8-IsLine {ppu} addr val l = ground arith

late_irq-IsLine :
    {ppu : Ppu} → IsLine ppu → IsLine (record ppu { dispstat = set_bit 3 ppu.dispstat })
late_irq-IsLine {ppu} l =
    let kept : set_bit 3 ppu.dispstat % 2 ≡ ppu.dispstat % 2 = omega arith in ground (arith, kept)

-- In every state that the events of the lines, the writes of the registers and memories, and the
-- machine reach, the line counter is below 228, and the flag of the vertical blank is set in the
-- lines 160 to 227.
pub Reach-IsLine : {ppu : Ppu} → Reach ppu → IsLine ppu
unfolding write_palette16 write_vram16 write_oam16
Reach-IsLine power_on = record { in_frame = omega arith; blank = refl }
Reach-IsLine (drawn r io s) = on_hdraw-IsLine io s (Reach-IsLine r)
Reach-IsLine (blanked r io s) = on_hblank-IsLine io s (Reach-IsLine r)
Reach-IsLine (written r addr val io) = io_write16-IsLine addr val io (Reach-IsLine r)
Reach-IsLine (written8 r addr val io) = io_write8-IsLine addr val io (Reach-IsLine r)
Reach-IsLine (affine r reg val) = affine-IsLine reg val (Reach-IsLine r)
Reach-IsLine (effect r reg val) = effect-IsLine reg val (Reach-IsLine r)
Reach-IsLine (vram8 r addr val) = vram8-IsLine addr val (Reach-IsLine r)
Reach-IsLine (palette r addr val) =
    let l = Reach-IsLine r in record { in_frame = l.in_frame; blank = l.blank }
Reach-IsLine (vram16 r addr val) =
    let l = Reach-IsLine r in record { in_frame = l.in_frame; blank = l.blank }
Reach-IsLine (oam r addr val) =
    let l = Reach-IsLine r in record { in_frame = l.in_frame; blank = l.blank }
Reach-IsLine (late_irq r) = late_irq-IsLine (Reach-IsLine r)
Reach-IsLine (frame r) = let l = Reach-IsLine r in record { in_frame = l.in_frame; blank = l.blank }
