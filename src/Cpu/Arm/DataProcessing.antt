-- ===== src/Cpu/Arm/DataProcessing.antt =====
-- Data processing and the shifted operand: candidates/gba-core/src/cpu/arm.rs.
use gba_eval.Base.{
  ℕ, ◌-◌, ◌*◌, ◌==◌, ◌>>>◌, ◌!=◌, ◌&&◌, ◌||◌, not, Bool, if◌then◌else◌, add32, sub32, low_bits,
  high_bits, test_bit, put_bit, field, of_bool, not32, bit_and, bit_or, bit_xor, leb,
}
use gba_eval.Cpu.{Cpu, switch_mode, from_bits, spsr_bits, carry, set_nz, c_bit}
use gba_eval.Cpu.Alu.{
  lsl, lsr, asr, ror, rotate_right, alu_add_setflags, alu_sub_setflags, alu_adc_setflags,
  alu_sbc_setflags,
}
use gba_eval.Cpu.Pipeline.{BusOps, Outcome, set_reg, flushed}

-- A shift by its type; `imm_form` tells an immediate amount from one in a register.
unfoldable pub shift_by : ℕ → ℕ → ℕ → Bool → Bool → ℕ × Bool
shift_by shift_type val amount carry_in imm_form =
    if shift_type == 0
    then lsl val amount carry_in
    else if shift_type == 1
    then lsr val amount carry_in imm_form
    else if shift_type == 2
    then asr val amount carry_in imm_form
    else ror val amount carry_in imm_form

-- Rm is read as PC + 12 where the amount comes from a register.
unfoldable pub arm_shift_operand : ℕ → Bool → Cpu → ℕ × Bool
arm_shift_operand op carry_in c =
    let rm = low_bits 4 op in
    let shift_type = field 5 2 op in
    let by_reg = test_bit 4 op in
    let val = if by_reg && (rm == 15) then add32 (c.r rm) 4 else c.r rm in
    let amount = if by_reg then low_bits 8 (c.r (field 8 4 op)) else field 7 5 op in
    shift_by shift_type val amount carry_in (not by_reg)

-- `imm.rotate_right(rot)` of the immediate operand.
abbrev pub rotated_imm : ℕ → ℕ
rotated_imm op = rotate_right (low_bits 8 op) (field 8 4 op * 2)

-- The second operand and the carry of the shifter.
unfoldable pub operand2 : ℕ → Cpu → ℕ × Bool
operand2 op c =
    let carry_in = carry c in
    if test_bit 25 op
    then (if field 8 4 op * 2 == 0
        then (low_bits 8 op, carry_in)
        else (rotated_imm op, (rotated_imm op >>> 31) != 0))
    else arm_shift_operand op carry_in c

abbrev reg_shift : ℕ → Bool
reg_shift op = not (test_bit 25 op) && test_bit 4 op

abbrev pub first_operand : ℕ → Cpu → ℕ
first_operand op c =
    let rn = field 16 4 op in if reg_shift op && (rn == 15) then add32 (c.r rn) 4 else c.r rn

-- The arithmetic operations: with the flags, or the word alone.
abbrev flagged_or : Bool → (Cpu → ℕ × Cpu) → (Cpu → ℕ) → Cpu → ℕ × Cpu
flagged_or s_bit flagged plain c = if s_bit then flagged c else (plain c, c)

-- The result of each opcode but CMP and CMN.
unfoldable pub alu_result : ℕ → Bool → ℕ → ℕ → Cpu → ℕ × Cpu
alu_result opcode s_bit a op2 c =
    if (opcode == 0x0) || (opcode == 0x8)
    then (bit_and a op2, c)
    else if (opcode == 0x1) || (opcode == 0x9)
    then (bit_xor a op2, c)
    else if opcode == 0x2
    then flagged_or s_bit (alu_sub_setflags a op2) (λ c'. sub32 a op2) c
    else if opcode == 0x3
    then flagged_or s_bit (alu_sub_setflags op2 a) (λ c'. sub32 op2 a) c
    else if opcode == 0x4
    then flagged_or s_bit (alu_add_setflags a op2) (λ c'. add32 a op2) c
    else if opcode == 0x5
    then flagged_or s_bit (alu_adc_setflags a op2) (λ c'. add32 (add32 a op2) (of_bool (carry c')))
        c
    else if opcode == 0x6
    then flagged_or s_bit (alu_sbc_setflags a op2)
        (λ c'. sub32 (sub32 a op2) (1 - of_bool (carry c'))) c
    else if opcode == 0x7
    then flagged_or s_bit (alu_sbc_setflags op2 a)
        (λ c'. sub32 (sub32 op2 a) (1 - of_bool (carry c'))) c
    else if opcode == 0xc
    then (bit_or a op2, c)
    else if opcode == 0xd
    then (op2, c)
    else if opcode == 0xe
    then (bit_and a (not32 op2), c)
    else (not32 op2, c)

-- AND, EOR, TST, TEQ, ORR, MOV, BIC and MVN.
abbrev is_logical : ℕ → Bool
is_logical opcode = leb opcode 1 || (opcode == 8) || (opcode == 9) || leb 0xc opcode

-- N and Z from the result and C from the shifter.
unfoldable pub logical_flags : ℕ → Bool → Cpu → Cpu
logical_flags result shift_carry c =
    let c' = set_nz result c in record c' { cpsr = put_bit c_bit shift_carry c'.cpsr }

-- The status register from the saved one, on a return from an exception.
unfoldable pub restore_status : Cpu → Cpu
restore_status c =
    let spsr = spsr_bits c in record (switch_mode (from_bits spsr) c) { cpsr = high_bits 5 spsr }

module _ {B : Type 0} (ops : BusOps B) where
  -- The write of Rd, which is a branch where Rd is PC.
  unfoldable pub finish : ℕ → ℕ → Bool → ℕ → Cpu → B → Outcome B
  finish cycles rd s_bit result c b =
      let c₁ = set_reg rd result c in
      if rd == 15
      then flushed ops 3 (if s_bit then restore_status (record c₁ { irq_delay = 1 }) else c₁) b
      else (cycles, c₁, b)

  unfoldable pub arm_data_processing : ℕ → Cpu → B → Outcome B
  arm_data_processing op c b =
      let s_bit = test_bit 20 op in
      let opcode = field 21 4 op in
      let (op2, shift_carry) = operand2 op c in
      let a = first_operand op c in
      let cycles : ℕ = if reg_shift op then 2 else 1 in
      if opcode == 0xa
      then (cycles, (alu_sub_setflags a op2 c).1, b)
      else if opcode == 0xb
      then (cycles, (alu_add_setflags a op2 c).1, b)
      else let (result, c₁) = alu_result opcode s_bit a op2 c in
        let c₂ = if s_bit && is_logical opcode then logical_flags result shift_carry c₁ else c₁ in
        if (opcode == 0x8) || (opcode == 0x9)
        then (cycles, c₂, b)
        else finish cycles (field 12 4 op) s_bit result c₂ b
