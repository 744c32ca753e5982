-- ===== src/Io.antt =====
-- The interrupt, key and control registers: candidates/gba-core/src/io.rs.
pub mod Registers
use gba_eval.Base.{ℕ, ◌+◌, ◌*◌, ◌/◌, ◌%◌, ◌^◌, ◌!=◌, ◌&&◌, Bool, false, bit_and, set_bit}

pub record IoRegs : Type 0 where
  pub ime : Bool
  pub ie : ℕ
  pub if_ : ℕ
  pub keyinput : ℕ
  pub haltcnt : Bool
  pub waitcnt : ℕ

abbrev pub io_new : IoRegs
io_new = record { ime = false; ie = 0; if_ = 0; keyinput = 0x03ff; haltcnt = false; waitcnt = 0 }

pub irq_pending : IoRegs → Bool
irq_pending io = io.ime && (bit_and io.ie io.if_ != 0)

-- `self.if_ |= 1 << n`
abbrev pub request_irq : ℕ → IoRegs → IoRegs
request_irq n io = record io { if_ = set_bit n io.if_ }

unfoldable pub request_vblank_irq : IoRegs → IoRegs
request_vblank_irq io = request_irq 0 io

unfoldable pub request_hblank_irq : IoRegs → IoRegs
request_hblank_irq io = request_irq 1 io

unfoldable pub request_vcounter_irq : IoRegs → IoRegs
request_vcounter_irq io = request_irq 2 io
