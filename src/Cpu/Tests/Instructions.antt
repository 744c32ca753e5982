-- ===== src/Cpu/Tests/Instructions.antt =====
-- The theorems on the instructions over a memory of words that any access reaches.
use gba_eval.Base.{
  ℕ, ◌*◌, ◌%◌, ◌^◌, ◌<◌, ◌==◌, ◌≡◌, ◌≢◌, refl, true, false, arith, high_bits, update, add32,
  signed32, signed64, ◌*ℤ◌, if◌then◌else◌,
}
use gba_eval.Cpu.{Cpu, cpu_new, irq, supervisor, bank, thumb}
use gba_eval.Cpu.Status.{IsStatus}
use gba_eval.Cpu.Pipeline.{BusOps}
use gba_eval.Cpu.Arm.{exec_arm}
use gba_eval.Cpu.Arm.Block.{arm_block_transfer}
use gba_eval.Cpu.Arm.Branch.{software_interrupt}
use gba_eval.Cpu.Arm.Multiply.{arm_multiply_long}
use gba_eval.Cpu.Arm.Multiply.Exact.{long_reg, arm_multiply_long-signed}
use gba_eval.Cpu.Arm.Transfer.{arm_single_transfer}
use gba_eval.Cpu.Step.{take_irq}
use gba_eval.Cpu.Step.Exceptions.{
  Resumes, IsRunning, opcode_size, take_irq-return, software_interrupt-return,
}
use gba_eval.Cpu.Thumb.{thumb_format}
use gba_eval.Cpu.Thumb.Expansion.Loads.{thumb_ldr, arm_ldr, thumb_ldr-arm_ldr}
use gba_eval.Cpu.Thumb.Expansion.Stack.{thumb_push, arm_push, thumb_push-arm_push}
use gba_eval.Cpu.Thumb.Formats.{format_table, thumb_format-table}
use gba_eval.Cpu.Thumb.Transfer.{thumb_load_store_imm, thumb_push_pop}

abbrev Memory : Type 0
Memory = ℕ → ℕ

abbrev flat : BusOps Memory
flat = record {
  read8 = λ a pc m. (m (high_bits 2 a) % 2 ^ 8, m);
  read16 = λ a pc m. (m (high_bits 2 a) % 2 ^ 16, m);
  read32 = λ a pc m. (m (high_bits 2 a), m);
  write8 = λ a v m. update m (high_bits 2 a) v;
  write16 = λ a v m. update m (high_bits 2 a) v;
  write32 = λ a v m. update m (high_bits 2 a) v;
  fetch16 = λ a m. (m (high_bits 2 a) % 2 ^ 16, m);
  fetch32 = λ a m. (m (high_bits 2 a), m);
  break_sequence = λ m. m;
  requested = λ m. false;
  enabled = λ m. false;
}

abbrev zeros : Memory
zeros a = 0

-- A program in Thumb state, with the mode field of the status word clear.
abbrev program : Cpu
program = record cpu_new {
  r = λ i. if i == 15 then 0x0800_0104 else if i == 13 then 0x0300_7f00 else i * 3;
  cpsr = 0x20;
}

program-IsStatus : IsStatus program
program-IsStatus = record { word = omega arith; no_mode = omega arith }

program-thumb : thumb program ≡ true
unfolding thumb
program-thumb = refl

program-IsRunning : IsRunning program
unfolding thumb
program-IsRunning = record { word = omega arith; aligned = refl }

irq-bank : bank irq ≢ bank program.mode
unfolding bank cpu_new
irq-bank = omega arith

supervisor-bank : bank supervisor ≢ bank program.mode
unfolding bank cpu_new
supervisor-bank = omega arith

-- What the handlers leave: every register overwritten but the link.
abbrev after_irq : ℕ → ℕ
after_irq i = if i == 14 then (take_irq flat program zeros).0.r 14 else 77

abbrev after_call : ℕ → ℕ
after_call i =
    if i == 14 then (software_interrupt flat (opcode_size program) program zeros).1.r 14 else 77

take_irq-return_example :
    Resumes program
      (program.r 15)
      (exec_arm flat 0xe25e_f004
        (record (take_irq flat program zeros).0 { r = after_irq; cpsr = 0x8000_0000 })
        zeros).1
take_irq-return_example =
    take_irq-return flat zeros zeros after_irq 0x8000_0000 program-IsStatus program-IsRunning
      irq-bank refl

software_interrupt-return_example :
    Resumes program
      (add32 (program.r 15) (opcode_size program))
      (exec_arm flat 0xe1b0_f00e
        (record (software_interrupt flat (opcode_size program) program zeros).1 {
          r = after_call;
          cpsr = 0x4000_0000;
        })
        zeros).1
software_interrupt-return_example =
    software_interrupt-return flat zeros zeros after_call 0x4000_0000 program-IsStatus
      program-IsRunning supervisor-bank refl

thumb_format-table_example : thumb_format 0xb580 ≡ format_table 0xb580
thumb_format-table_example = thumb_format-table 0xb580 (omega arith)

thumb_ldr-arm_ldr_example :
    thumb_load_store_imm flat (thumb_ldr false true 3 2 1) program zeros
    ≡ arm_single_transfer flat (arm_ldr false true 3 2 1) program zeros
thumb_ldr-arm_ldr_example =
    thumb_ldr-arm_ldr 3 2 1 (omega arith) (omega arith) (omega arith) flat program zeros false true

thumb_push-arm_push_example :
    thumb_push_pop flat (thumb_push true 0xf0) program zeros
    ≡ arm_block_transfer flat (arm_push true 0xf0) program zeros
thumb_push-arm_push_example =
    thumb_push-arm_push 0xf0 (omega arith) flat true program zeros (omega arith)

-- Words with their signs: SMULL r1, r2, r3, r4 on -2 and 7, and UMLAL.
abbrev signs : Cpu
signs = record cpu_new {
  r = λ i. if i == 3 then 0xffff_fffe else if i == 4 then 7 else if i == 1 then 5 else 0;
}

signs-words : (i : ℕ) → signs.r i < 2 ^ 32
signs-words i = ground arith

arm_multiply_long-signed_example :
    signed64 (long_reg 0xe0c2_1493 (arm_multiply_long 0xe0c2_1493 signs).1)
    ≡ signed32 (signs.r 3) *ℤ signed32 (signs.r 4)
arm_multiply_long-signed_example =
    arm_multiply_long-signed 0xe0c2_1493 signs (omega arith) refl refl signs-words
