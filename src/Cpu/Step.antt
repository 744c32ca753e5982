-- ===== src/Cpu/Step.antt =====
-- One step of the processor: candidates/gba-core/src/cpu/mod.rs.
pub mod Return
pub mod Exceptions
use gba_eval.Base.{
  ℕ, ◌+◌, ◌-◌, ◌*◌, ◌/◌, ◌%◌, ◌^◌, ◌==◌, ◌&&◌, not, Bool, true, false, if◌then◌else◌, add32, sub32,
  u32, u16, ltb, test_bit, update, ◌>>>◌,
}
use gba_eval.Cpu.{Cpu, irq, thumb, cpsr_bits, switch_mode, i_bit, check_cond}
use gba_eval.Cpu.Pipeline.{BusOps, Outcome, set_reg, flushed}
use gba_eval.Cpu.Arm.{exec_arm}
use gba_eval.Cpu.Arm.Branch.{enter}
use gba_eval.Cpu.Thumb.{exec_thumb}

module _ {B : Type 0} (ops : BusOps B) where
  -- The link is the address of the next instruction plus 4, in either state.
  pub take_irq : Cpu → B → Cpu × B
  take_irq c b =
      let ret = if thumb c then c.r 15 else sub32 (c.r 15) 4 in
      let old = cpsr_bits c in
      let c₁ = record c { irq_count = u32 (c.irq_count + 1) } in
      let (_, c₂, b₂) = flushed ops 0 (enter irq old ret 0x18 (switch_mode irq c₁)) b in (c₂, b₂)

  -- The next opcode into the pipeline, unless a branch has filled it.
  abbrev advance_thumb : Outcome B → Outcome B
  advance_thumb (n, c, b) =
      if c.pipeline_flushed
      then (n, c, b)
      else let (op, b') = ops.fetch16 (c.r 15) b in
        (n, record c { pipe = update c.pipe 1 op; r = update c.r 15 (add32 (c.r 15) 2) }, b')

  abbrev advance_arm : Outcome B → Outcome B
  advance_arm (n, c, b) =
      if c.pipeline_flushed
      then (n, c, b)
      else let (op, b') = ops.fetch32 (c.r 15) b in
        (n, record c { pipe = update c.pipe 1 op; r = update c.r 15 (add32 (c.r 15) 4) }, b')

  -- The instruction at the head of the pipeline.
  pub execute : Cpu → B → Outcome B
  execute c b =
      let opcode = c.pipe 0 in
      let c₁ = record c { pipe = update c.pipe 0 (c.pipe 1); pipeline_flushed = false } in
      if thumb c₁
      then advance_thumb (exec_thumb ops (u16 opcode) c₁ b)
      else advance_arm
          (if check_cond (opcode >>> 28) c₁ then exec_arm ops opcode c₁ b else (1, c₁, b))

  -- The interrupt is looked for before the instruction, but not right after a return from one.
  pub dispatch : Cpu → B → Outcome B
  unfolding take_irq execute
  dispatch c b =
      if ltb 0 c.irq_delay
      then execute (record c { irq_delay = c.irq_delay - 1 }) b
      else if ops.requested b && ops.enabled b && not (test_bit i_bit c.cpsr)
      then (let (c', b') = take_irq c b in (4, c', b'))
      else execute c b

  pub step : Cpu → B → Outcome B
  unfolding dispatch
  step c b =
      if c.halted && not (ops.requested b)
      then (1, c, b)
      else dispatch (record c { halted = false }) b
