-- ===== src/Cpu/Arm/Branch.antt =====
-- Branches and the software interrupt: candidates/gba-core/src/cpu/arm.rs.
use gba_eval.Base.{
  ℕ, ◌<<<◌, if◌then◌else◌, add32, sub32, u32, low_bits, high_bits, test_bit, put_bit, clear_bit,
  set_bit, update,
}
use gba_eval.Cpu.{Mode, Cpu, supervisor, switch_mode, cpsr_bits, bank, t_bit, i_bit}
use gba_eval.Cpu.Alu.{asr_word}
use gba_eval.Cpu.Pipeline.{BusOps, Outcome, set_reg, flushed}

-- The entry of an exception in ARM state with interrupts off: its mode, the link and the vector.
abbrev pub enter : Mode → ℕ → ℕ → ℕ → Cpu → Cpu
enter m old ret vector c = record c {
  spsr = update c.spsr (bank m) old;
  cpsr = set_bit i_bit (clear_bit t_bit c.cpsr);
  r = update (update c.r 14 ret) 15 vector;
}

-- The state bit from bit 0 of the target.
abbrev pub exchange : ℕ → Cpu → Cpu
exchange addr c = record c {
  cpsr = put_bit t_bit (test_bit 0 addr) c.cpsr;
  r = update c.r 15 (high_bits 1 addr);
}

module _ {B : Type 0} (ops : BusOps B) where
  pub arm_branch : ℕ → Cpu → B → Outcome B
  arm_branch op c b =
      let offset = asr_word (u32 (low_bits 24 op <<< 8)) 6 in
      let c₁ = if test_bit 24 op then set_reg 14 (sub32 (c.r 15) 4) c else c in
      flushed ops 3 (set_reg 15 (add32 (c₁.r 15) offset) c₁) b

  unfoldable pub arm_bx : ℕ → Cpu → B → Outcome B
  arm_bx op c b = flushed ops 3 (exchange (c.r (low_bits 4 op)) c) b

  -- The link is the address after the instruction, in either state.
  unfoldable pub software_interrupt : ℕ → Cpu → B → Outcome B
  software_interrupt size c b =
      let ret = sub32 (c.r 15) size in
      let old = cpsr_bits c in
      flushed ops 3 (enter supervisor old ret 0x08 (switch_mode supervisor c)) b

  pub arm_swi : ℕ → Cpu → B → Outcome B
  arm_swi op c b = software_interrupt 4 c b
