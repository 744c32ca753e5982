-- ===== src/Cpu/Thumb/Branch.antt =====
-- The Thumb branches and the operations on high registers: candidates/gba-core/src/cpu/thumb.rs.
pub mod Calls
use gba_eval.Base.{
  ℕ, ◌+◌, ◌-◌, ◌*◌, ◌/◌, ◌%◌, ◌^◌, ◌==◌, ◌<<<◌, Bool, true, false, if◌then◌else◌, add32, sub32, u32,
  low_bits, high_bits, test_bit, set_bit, field, update,
}
use gba_eval.Cpu.{Cpu, check_cond}
use gba_eval.Cpu.Alu.{alu_sub_setflags}
use gba_eval.Cpu.Pipeline.{BusOps, Outcome, set_reg, flushed, sign_extend8}
use gba_eval.Cpu.Arm.Branch.{exchange, software_interrupt}

module _ {B : Type 0} (ops : BusOps B) where
  -- A result in a high or low register, which is a branch where it is PC.
  abbrev pub set_hireg : ℕ → ℕ → Cpu → B → Outcome B
  set_hireg rd v c b =
      let c' = set_reg rd v c in
      if rd == 15 then flushed ops 3 (set_reg 15 (high_bits 1 (c'.r 15)) c') b else (1, c', b)

  pub thumb_hireg_bx : ℕ → Cpu → B → Outcome B
  thumb_hireg_bx op c b =
      let alu_op = field 8 2 op in
      let rs = field 3 3 op + field 6 1 op * 2 ^ 3 in
      let rd = low_bits 3 op + field 7 1 op * 2 ^ 3 in
      if alu_op == 0
      then set_hireg rd (add32 (c.r rd) (c.r rs)) c b
      else if alu_op == 1
      then (1, (alu_sub_setflags (c.r rd) (c.r rs) c).1, b)
      else if alu_op == 2
      then set_hireg rd (c.r rs) c b
      else flushed ops 3 (exchange (c.r rs) c) b

  pub thumb_cond_branch : ℕ → Cpu → B → Outcome B
  thumb_cond_branch op c b =
      let offset = u32 (sign_extend8 (low_bits 8 op) * 2) in
      if check_cond (field 8 4 op) c
      then flushed ops 3 (set_reg 15 (add32 (c.r 15) offset) c) b
      else (1, c, b)

  pub thumb_swi : ℕ → Cpu → B → Outcome B
  thumb_swi op c b = software_interrupt ops 2 c b

  pub thumb_uncond_branch : ℕ → Cpu → B → Outcome B
  thumb_uncond_branch op c b =
      let offset = low_bits 11 op <<< 1 in
      let offset' = if test_bit 11 offset then offset + 0xffff_f000 else offset in
      flushed ops 3 (set_reg 15 (add32 (c.r 15) offset') c) b

  -- The two halves of a call: the high part into LR, then the jump.
  pub thumb_long_branch : ℕ → Cpu → B → Outcome B
  thumb_long_branch op c b =
      let offset = low_bits 11 op in
      if test_bit 11 op
      then (let next = sub32 (c.r 15) 2 in
          let c₁ = set_reg 15 (add32 (c.r 14) (offset <<< 1)) c in
          flushed ops 3 (set_reg 14 (set_bit 0 next) c₁) b)
      else let offset' = if test_bit 10 offset then offset + 0xffff_f800 else offset in
        (1, set_reg 14 (add32 (c.r 15) (u32 (offset' <<< 12))) c, b)
