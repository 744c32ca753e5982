-- ===== src/Cpu/Pipeline.antt =====
-- What the processor asks of the bus, and the refill of the pipeline:
-- candidates/gba-core/src/cpu/mod.rs. The instructions are written against this interface, which
-- the bus fills; each call gives the bus back in its new state.
pub mod Refill
use gba_eval.Base.{
  ℕ, ◌+◌, ◌%◌, ◌*◌, ◌/◌, ◌^◌, Bool, true, false, if◌then◌else◌, add32, high_bits, update, u32, ltb,
  ◌-◌,
}
use gba_eval.Cpu.{Cpu, thumb}

pub record BusOps (B : Type 0) : Type 0 where
  -- address, program counter
  pub read8 : ℕ → ℕ → B → ℕ × B
  pub read16 : ℕ → ℕ → B → ℕ × B
  pub read32 : ℕ → ℕ → B → ℕ × B
  -- address, value
  pub write8 : ℕ → ℕ → B → B
  pub write16 : ℕ → ℕ → B → B
  pub write32 : ℕ → ℕ → B → B
  -- address
  pub fetch16 : ℕ → B → ℕ × B
  pub fetch32 : ℕ → B → ℕ × B
  -- `bus.sequential = false`
  pub break_sequence : B → B
  -- `bus.io.ie & bus.io.if_ != 0`, `bus.io.ime`
  pub requested : B → Bool
  pub enabled : B → Bool

-- The cycles of an instruction, and the state after it.
abbrev pub Outcome : Type 0 → Type 0
Outcome B = ℕ × Cpu × B

abbrev pub set_reg : ℕ → ℕ → Cpu → Cpu
set_reg i v c = record c { r = update c.r i v }

-- `v as i8 as i32 as u32`, `v as i16 as i32 as u32`
abbrev pub sign_extend8 : ℕ → ℕ
sign_extend8 v = if ltb v (2 ^ 7) then v else v + (2 ^ 32 - 2 ^ 8)

abbrev pub sign_extend16 : ℕ → ℕ
sign_extend16 v = if ltb v (2 ^ 15) then v else v + (2 ^ 32 - 2 ^ 16)

module _ {B : Type 0} (ops : BusOps B) where
  abbrev flush_thumb : Cpu → B → Cpu × B
  flush_thumb c b =
      let pc = high_bits 1 (c.r 15) in
      let (op0, b₁) = ops.fetch16 pc b in
      let (op1, b₂) = ops.fetch16 (add32 pc 2) b₁ in
      let next = add32 pc 4 in
      let (_, b₃) = ops.fetch16 next b₂ in
      (record c { r = update c.r 15 next; pipe = update (update c.pipe 0 op0) 1 op1 }, b₃)

  abbrev flush_arm : Cpu → B → Cpu × B
  flush_arm c b =
      let pc = high_bits 2 (c.r 15) in
      let (op0, b₁) = ops.fetch32 pc b in
      let (op1, b₂) = ops.fetch32 (add32 pc 4) b₁ in
      let next = add32 pc 8 in
      let (_, b₃) = ops.fetch32 next b₂ in
      (record c { r = update c.r 15 next; pipe = update (update c.pipe 0 op0) 1 op1 }, b₃)

  unfoldable pub flush_pipeline : Cpu → B → Cpu × B
  unfolding thumb
  flush_pipeline c b =
      let c' = record c { pipeline_flushed = true } in
      let b' = ops.break_sequence b in if thumb c' then flush_thumb c' b' else flush_arm c' b'

  -- `self.flush_pipeline(bus); n`
  abbrev pub flushed : ℕ → Cpu → B → Outcome B
  flushed n c b = let (c', b') = flush_pipeline c b in (n, c', b')
