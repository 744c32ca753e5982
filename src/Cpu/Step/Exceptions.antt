-- ===== src/Cpu/Step/Exceptions.antt =====
-- Interrupts and calls of the BIOS, from their entry to the return of the handler.
use gba_eval.Base.{
  ℕ, ◌+◌, ◌%◌, ◌^◌, ◌<◌, ◌≡◌, ◌≢◌, refl, true, arith, ap, subst, ◌∙◌, if◌then◌else◌, sub32, add32,
  u32, update,
}
use gba_eval.Cpu.{Mode, Cpu, bank, irq, supervisor, switch_mode, thumb, cpsr_bits, set_nz}
use gba_eval.Cpu.Alu.{alu_sub_setflags, lsl}
use gba_eval.Cpu.Status.{IsStatus}
use gba_eval.Cpu.Pipeline.{BusOps, flushed, flush_pipeline}
use gba_eval.Cpu.Pipeline.Refill.{flush_pipeline_lem, flush_pc}
use gba_eval.Cpu.Arm.{exec_arm, arm_class, execute_class}
use gba_eval.Cpu.Arm.Branch.{software_interrupt, enter}
use gba_eval.Cpu.Arm.DataProcessing.{
  arm_data_processing, operand2, alu_result, finish, restore_status, shift_by, logical_flags,
  arm_shift_operand,
}
use gba_eval.Cpu.Step.{take_irq}
use gba_eval.Cpu.Step.Return.{handled, restore_status-handled}

-- What a program gets back at a return: its mode, its status, its stack and its place.
abbrev pub Resumes : Cpu → ℕ → Cpu → Type 0
Resumes c pc c' =
    (c'.mode ≡ c.mode)
    × (c'.cpsr ≡ c.cpsr)
    × (c'.r 13 ≡ c.r 13)
    × (c'.r 14 ≡ c.r 14)
    × (c'.r 15 ≡ pc)

abbrev pub opcode_size : Cpu → ℕ
opcode_size c = if thumb c then 2 else 4

-- The program counter of a running program: a word, rounded to the state.
pub record IsRunning (c : Cpu) : Type 0 where
  pub word : c.r 15 < 2 ^ 32
  pub aligned : (if thumb c then c.r 15 % 2 else c.r 15 % 4) ≡ 0

module _ {B : Type 0} (ops : BusOps B) where
  -- `SUBS PC, LR, #4` and `MOVS PC, LR`.
  subs_pc :
      (h : Cpu) (b : B)
      → exec_arm ops 0xe25e_f004 h b
        ≡ flushed ops 3
            (restore_status (record h {
              r = update h.r 15 (alu_sub_setflags (h.r 14) 4 h).0;
              cpsr = (alu_sub_setflags (h.r 14) 4 h).1.cpsr;
              irq_delay = 1;
            }))
            b
  unfolding exec_arm arm_class execute_class arm_data_processing operand2 alu_result finish
      alu_sub_setflags
  subs_pc h b = refl

  movs_pc :
      (h : Cpu) (b : B)
      → exec_arm ops 0xe1b0_f00e h b
        ≡ flushed ops 3
            (restore_status (record h {
              r = update h.r 15 (h.r 14);
              cpsr = (logical_flags (h.r 14) (operand2 0xe1b0_f00e h).1 h).cpsr;
              irq_delay = 1;
            }))
            b
  unfolding exec_arm arm_class execute_class arm_data_processing operand2 alu_result finish shift_by
      logical_flags arm_shift_operand lsl set_nz
  movs_pc h b = refl

  sub_result : (a : ℕ) (h : Cpu) → a < 2 ^ 32 → (alu_sub_setflags a 4 h).0 ≡ sub32 a 4
  unfolding alu_sub_setflags
  sub_result a h l = omega arith

  -- After the return the refill goes to the address in PC, in the state of the program.
  resumed :
      (c h : Cpu) (b : B) (pc : ℕ)
      → Resumes c pc h
      → Resumes c (flush_pc (record c { r = update c.r 15 pc })) (flush_pipeline ops h b).0
  unfolding thumb
  resumed c h b pc (m, w, sp, lr, e) =
      rw (flush_pipeline_lem ops h b) (m, w, sp, lr, rw (w, e) refl)

  -- The return to the address `x` from an exception of the mode `m`, as its handler leaves it.
  module _ (m : Mode) (c : Cpu) (ret vector : ℕ) (b b' : B) (r' : ℕ → ℕ) (w : ℕ) where
    abbrev entry : Cpu
    entry = (flush_pipeline ops (enter m (cpsr_bits c) ret vector (switch_mode m c)) b).0

    entry-handled :
        record entry { r = r'; cpsr = w; irq_delay = 1 }
        ≡ handled m c r' w entry.pipe true 1 (switch_mode m c).irq_count
    entry-handled =
        ap (λ (h : Cpu). record h { r = r'; cpsr = w; irq_delay = 1 })
          (flush_pipeline_lem ops (enter m (cpsr_bits c) ret vector (switch_mode m c)) b)

    returned :
        IsStatus c
        → bank m ≢ bank c.mode
        → Resumes c
            (flush_pc (record c { r = update c.r 15 (r' 15) }))
            (flushed ops 3 (restore_status (record entry { r = r'; cpsr = w; irq_delay = 1 })) b').1
    returned s ne = rw entry-handled (
        resumed c (restore_status (handled m c r' w entry.pipe true 1 (switch_mode m c).irq_count))
          b' (r' 15)
          (restore_status-handled m c r' w entry.pipe true 1 (switch_mode m c).irq_count s ne))

    link-entry : entry.r 14 ≡ ret
    link-entry =
        ap (λ (h : Cpu). h.r 14)
          (flush_pipeline_lem ops (enter m (cpsr_bits c) ret vector (switch_mode m c)) b)

  -- The link of an interrupt less 4, and that of a call, lead back.
  irq_place :
      {c : Cpu}
      → IsRunning c
      → let x = sub32 (if thumb c then c.r 15 else sub32 (c.r 15) 4) 4 in
        flush_pc (record c { r = update c.r 15 x }) ≡ c.r 15
  unfolding thumb
  irq_place run = ground arith

  swi_place :
      {c : Cpu}
      → IsRunning c
      → let size = opcode_size c in
        flush_pc (record c { r = update c.r 15 (sub32 (c.r 15) size) }) ≡ add32 (c.r 15) size
  unfolding thumb
  swi_place run = ground arith

  -- A handler that an interrupt has called from a mode with another bank of registers, and that
  -- leaves any values in the registers but the link and any flags, gives the program back with
  -- `SUBS PC, LR, #4`: its mode, its status word, its stack pointer and link, and the very
  -- instruction that was next. The status word is one that has no mode digits of its own, as after
  -- a write of it (power-on leaves some in it), and the program counter is a word rounded to the
  -- state.
  pub take_irq-return :
      {c : Cpu} (b b' : B) (r' : ℕ → ℕ) (w : ℕ)
      → IsStatus c
      → IsRunning c
      → bank irq ≢ bank c.mode
      → r' 14 ≡ (take_irq ops c b).0.r 14
      → Resumes c
          (c.r 15)
          (exec_arm ops 0xe25e_f004 (record (take_irq ops c b).0 { r = r'; cpsr = w }) b').1
  unfolding take_irq thumb cpsr_bits
  take_irq-return {c} b b' r' w s run ne link = rw (subs_pc (record h { r = r'; cpsr = w }) b') (
      subst (λ (p : ℕ). Resumes c p (flushed ops 3 (restore_status back) b').1) place
        (returned irq c₁ ret 0x18 b b' (update r' 15 x) flags
          (record { word = s.word; no_mode = s.no_mode }) ne))
    where
      c₁ : Cpu
      c₁ = record c { irq_count = u32 (c.irq_count + 1) }

      ret : ℕ
      ret = if thumb c then c.r 15 else sub32 (c.r 15) 4

      h : Cpu
      h = (take_irq ops c b).0

      left : Cpu
      left = record h { r = r'; cpsr = w }

      x : ℕ
      x = (alu_sub_setflags (r' 14) 4 left).0

      flags : ℕ
      flags = (alu_sub_setflags (r' 14) 4 left).1.cpsr

      back : Cpu
      back = record h { r = update r' 15 x; cpsr = flags; irq_delay = 1 }

      linked : r' 14 ≡ ret
      linked = link ∙ link-entry irq c₁ ret 0x18 b b' r' w

      place : flush_pc (record c { r = update c.r 15 x }) ≡ c.r 15
      place =
          ap (λ (y : ℕ). flush_pc (record c { r = update c.r 15 y }))
            (sub_result (r' 14) left (rw linked (ground (arith, run.word)))
              ∙ ap (λ (y : ℕ). sub32 y 4) linked)
          ∙ irq_place run

  -- A call of the BIOS, from a mode with another bank than supervisor, whose handler leaves any
  -- values in the registers but the link and any flags gives the program back with `MOVS PC, LR`:
  -- its mode, its status word, its stack pointer and link, and the instruction after the call. The
  -- status word of the caller is one that has no mode digits of its own, as after a write of it
  -- (power-on leaves some in it, and a call then returns to System mode), and its program counter is
  -- a word rounded to the state.
  pub software_interrupt-return :
      {c : Cpu} (b b' : B) (r' : ℕ → ℕ) (w : ℕ)
      → IsStatus c
      → IsRunning c
      → bank supervisor ≢ bank c.mode
      → let size = opcode_size c in
        let h = (software_interrupt ops size c b).1 in
        r' 14 ≡ h.r 14
        → Resumes c
            (add32 (c.r 15) size)
            (exec_arm ops 0xe1b0_f00e (record h { r = r'; cpsr = w }) b').1
  unfolding software_interrupt thumb
  software_interrupt-return {c} b b' r' w s run ne link =
      rw (movs_pc (record h { r = r'; cpsr = w }) b') (
        subst (λ (p : ℕ). Resumes c p (flushed ops 3 (restore_status back) b').1) place
          (returned supervisor c ret 0x08 b b' (update r' 15 (r' 14)) flags s ne))
    where
      ret : ℕ
      ret = sub32 (c.r 15) (opcode_size c)

      h : Cpu
      h = (software_interrupt ops (opcode_size c) c b).1

      flags : ℕ
      flags =
          (logical_flags (r' 14) (operand2 0xe1b0_f00e (record h { r = r'; cpsr = w })).1
            (record h { r = r'; cpsr = w })).cpsr

      back : Cpu
      back = record h { r = update r' 15 (r' 14); cpsr = flags; irq_delay = 1 }

      linked : r' 14 ≡ ret
      linked = link ∙ link-entry supervisor c ret 0x08 b b' r' w

      place : flush_pc (record c { r = update c.r 15 (r' 14) }) ≡ add32 (c.r 15) (opcode_size c)
      place = ap (λ (y : ℕ). flush_pc (record c { r = update c.r 15 y })) linked ∙ swi_place run
