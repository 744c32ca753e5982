-- ===== src/Cpu/Thumb/Arithmetic.antt =====
-- The Thumb instructions on registers alone: candidates/gba-core/src/cpu/thumb.rs.
use gba_eval.Base.{
  ℕ, ◌*◌, ◌==◌, ◌||◌, Bool, true, false, if◌then◌else◌, add32, sub32, u32, low_bits, high_bits,
  test_bit, field, not32, bit_and, bit_or, bit_xor,
}
use gba_eval.Cpu.{Cpu, carry, set_nz}
use gba_eval.Cpu.Alu.{
  lsl, lsr, asr, ror, alu_add_setflags, alu_sub_setflags, alu_adc_setflags, alu_sbc_setflags,
}
use gba_eval.Cpu.Pipeline.{set_reg}
use gba_eval.Cpu.Arm.DataProcessing.{logical_flags}
use gba_eval.Cpu.Arm.Multiply.{multiply_cycles}

-- `self.r[rd] = v` after the flags
abbrev pub into : ℕ → ℕ × Cpu → Cpu
into rd (v, c) = set_reg rd v c

-- A result with N and Z, and one with C from the shifter too.
abbrev pub moved : ℕ → ℕ → Cpu → Cpu
moved rd v c = set_nz v (set_reg rd v c)

abbrev pub shifted : ℕ → ℕ × Bool → Cpu → Cpu
shifted rd (v, out) c = logical_flags v out (set_reg rd v c)

pub thumb_move_shifted : ℕ → Cpu → ℕ × Cpu
thumb_move_shifted op c =
    let shift_op = field 11 2 op in
    let offset = field 6 5 op in
    let v = c.r (field 3 3 op) in
    let result =
      if shift_op == 0
      then lsl v offset (carry c)
      else if shift_op == 1
      then lsr v offset (carry c) true
      else asr v offset (carry c) true in
    (1, shifted (low_bits 3 op) result c)

unfoldable pub thumb_add_sub : ℕ → Cpu → ℕ × Cpu
thumb_add_sub op c =
    let rn_or_imm = field 6 3 op in
    let operand = if test_bit 10 op then rn_or_imm else c.r rn_or_imm in
    let v = c.r (field 3 3 op) in
    let result =
      if test_bit 9 op then alu_sub_setflags v operand c else alu_add_setflags v operand c in
    (1, into (low_bits 3 op) result)

pub thumb_imm_op : ℕ → Cpu → ℕ × Cpu
thumb_imm_op op c =
    let opcode = field 11 2 op in
    let rd = field 8 3 op in
    let imm = low_bits 8 op in
    (
      1,
      if opcode == 0
          then moved rd imm c
          else if opcode == 1
          then (alu_sub_setflags (c.r rd) imm c).1
          else if opcode == 2
          then into rd (alu_add_setflags (c.r rd) imm c)
          else into rd (alu_sub_setflags (c.r rd) imm c),
    )

-- The sixteen operations on two low registers.
pub thumb_alu_op : ℕ → ℕ → ℕ → ℕ → Cpu → Cpu
thumb_alu_op alu_op rd a b c =
    if alu_op == 0x0
    then moved rd (bit_and a b) c
    else if alu_op == 0x1
    then moved rd (bit_xor a b) c
    else if alu_op == 0x2
    then shifted rd (lsl a (low_bits 8 b) (carry c)) c
    else if alu_op == 0x3
    then shifted rd (lsr a (low_bits 8 b) (carry c) false) c
    else if alu_op == 0x4
    then shifted rd (asr a (low_bits 8 b) (carry c) false) c
    else if alu_op == 0x5
    then into rd (alu_adc_setflags a b c)
    else if alu_op == 0x6
    then into rd (alu_sbc_setflags a b c)
    else if alu_op == 0x7
    then shifted rd (ror a (low_bits 8 b) (carry c) false) c
    else if alu_op == 0x8
    then set_nz (bit_and a b) c
    else if alu_op == 0x9
    then into rd (alu_sub_setflags 0 b c)
    else if alu_op == 0xa
    then (alu_sub_setflags a b c).1
    else if alu_op == 0xb
    then (alu_add_setflags a b c).1
    else if alu_op == 0xc
    then moved rd (bit_or a b) c
    else if alu_op == 0xd
    then moved rd (u32 (a * b)) c
    else if alu_op == 0xe
    then moved rd (bit_and a (not32 b)) c
    else moved rd (not32 b) c

pub thumb_alu : ℕ → Cpu → ℕ × Cpu
unfolding thumb_alu_op
thumb_alu op c =
    let alu_op = field 6 4 op in
    let rd = low_bits 3 op in
    let a = c.r rd in
    let cycles =
      if alu_op == 0xd
      then multiply_cycles a
      else if (alu_op == 0x2) || (alu_op == 0x3) || (alu_op == 0x4) || (alu_op == 0x7)
      then 2
      else 1 in
    (cycles, thumb_alu_op alu_op rd a (c.r (field 3 3 op)) c)

-- An address from the stack pointer, or from the program counter rounded to a word.
pub thumb_load_address : ℕ → Cpu → ℕ × Cpu
thumb_load_address op c =
    let imm = low_bits 8 op * 4 in
    let base = if test_bit 11 op then c.r 13 else high_bits 2 (c.r 15) in
    (1, set_reg (field 8 3 op) (add32 base imm) c)

pub thumb_adjust_sp : ℕ → Cpu → ℕ × Cpu
thumb_adjust_sp op c =
    let offset = low_bits 7 op * 4 in
    (1, set_reg 13 (if test_bit 7 op then sub32 (c.r 13) offset else add32 (c.r 13) offset) c)
