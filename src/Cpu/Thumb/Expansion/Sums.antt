-- ===== src/Cpu/Thumb/Expansion/Sums.antt =====
-- Additions and subtractions of two registers, or of a register and three bits.
use gba_eval.Base.{
  ℕ, ◌+◌, ◌*◌, ◌/◌, ◌%◌, ◌^◌, ◌<◌, ◌==◌, ◌≡◌, Bool, true, false, arith, of_bool, if◌then◌else◌,
}
use gba_eval.Cpu.{Cpu, carry}
use gba_eval.Cpu.Alu.{lsl}
use gba_eval.Cpu.Pipeline.{BusOps}
use gba_eval.Cpu.Arm.DataProcessing.{
  arm_data_processing, operand2, alu_result, finish, shift_by, arm_shift_operand,
}
use gba_eval.Cpu.Thumb.Arithmetic.{thumb_add_sub}

-- `ADDS`, or `SUBS`, Rd, Rs, and the register or number `n`.
pub thumb_sum : Bool → Bool → ℕ → ℕ → ℕ → ℕ
thumb_sum imm sub n rs rd =
    0x1800 + of_bool imm * 2 ^ 10 + of_bool sub * 2 ^ 9 + n * 2 ^ 6 + rs * 2 ^ 3 + rd

abbrev sum_opcode : Bool → ℕ
sum_opcode true = 2
sum_opcode false = 4

pub arm_sum : Bool → Bool → ℕ → ℕ → ℕ → ℕ
arm_sum imm sub n rs rd =
    0xe010_0000 + of_bool imm * 2 ^ 25 + sum_opcode sub * 2 ^ 21 + rs * 2 ^ 16 + rd * 2 ^ 12 + n

module _ (n rs rd : ℕ) (h1 : n < 8) (h2 : rs < 8) (h3 : rd < 8) where
  thumb_fields :
      (imm sub : Bool)
      → let op = thumb_sum imm sub n rs rd in
        (op / 2 ^ 10 % 2 ≡ of_bool imm)
        × (op / 2 ^ 9 % 2 ≡ of_bool sub)
        × (op / 2 ^ 6 % 2 ^ 3 ≡ n)
        × (op / 2 ^ 3 % 2 ^ 3 ≡ rs)
        × (op % 2 ^ 3 ≡ rd)
  unfolding thumb_sum
  thumb_fields true true = omega arith
  thumb_fields true false = omega arith
  thumb_fields false true = omega arith
  thumb_fields false false = omega arith

  arm_fields :
      (imm sub : Bool)
      → let op = arm_sum imm sub n rs rd in
        (op / 2 ^ 25 % 2 ≡ of_bool imm)
        × (op / 2 ^ 21 % 2 ^ 4 ≡ sum_opcode sub)
        × (op / 2 ^ 20 % 2 ≡ 1)
        × (op / 2 ^ 16 % 2 ^ 4 ≡ rs)
        × (op / 2 ^ 12 % 2 ^ 4 ≡ rd)
        × (op / 2 ^ 8 % 2 ^ 4 ≡ 0)
        × (op / 2 ^ 7 % 2 ^ 5 ≡ 0)
        × (op / 2 ^ 5 % 2 ^ 2 ≡ 0)
        × (op / 2 ^ 4 % 2 ≡ 0)
        × (op % 2 ^ 4 ≡ n)
        × (op % 2 ^ 8 ≡ n)
  unfolding arm_sum
  arm_fields true true = omega arith
  arm_fields true false = omega arith
  arm_fields false true = omega arith
  arm_fields false false = omega arith

  low_register : (rd == 15) ≡ false
  low_register = ground arith

  operand :
      (imm sub : Bool) (c : Cpu)
      → operand2 (arm_sum imm sub n rs rd) c ≡ (if imm then n else c.r n, carry c)
  unfolding operand2 arm_shift_operand shift_by lsl
  operand true true c =
      let (a25, a21, a20, a16, a12, a8, a7, a5, a4, a0, a00) = arm_fields true true in
      simp (a25, a8, a7, a5, a4, a0, a00)
  operand true false c =
      let (a25, a21, a20, a16, a12, a8, a7, a5, a4, a0, a00) = arm_fields true false in
      simp (a25, a8, a7, a5, a4, a0, a00)
  operand false true c =
      let (a25, a21, a20, a16, a12, a8, a7, a5, a4, a0, a00) = arm_fields false true in
      simp (a25, a8, a7, a5, a4, a0, a00)
  operand false false c =
      let (a25, a21, a20, a16, a12, a8, a7, a5, a4, a0, a00) = arm_fields false false in
      simp (a25, a8, a7, a5, a4, a0, a00)

  module _ {B : Type 0} (ops : BusOps B) (c : Cpu) (b : B) where
    -- ADD and SUB of Thumb, in both forms, have the result, the flags and the cycles of the ARM
    -- instructions with the same operands.
    pub thumb_sum-arm_sum :
        (imm sub : Bool)
        → arm_data_processing ops (arm_sum imm sub n rs rd) c b
          ≡ let (cycles, c') = thumb_add_sub (thumb_sum imm sub n rs rd) c in (cycles, c', b)
    unfolding arm_data_processing alu_result finish thumb_add_sub
    thumb_sum-arm_sum true true =
        let (t10, t9, t6, t3, t0) = thumb_fields true true in
        let (a25, a21, a20, a16, a12, a8, a7, a5, a4, a0, a00) = arm_fields true true in
        simp (operand true true c, t10, t9, t6, t3, t0, a25, a21, a20, a16, a12, a4, low_register)
    thumb_sum-arm_sum true false =
        let (t10, t9, t6, t3, t0) = thumb_fields true false in
        let (a25, a21, a20, a16, a12, a8, a7, a5, a4, a0, a00) = arm_fields true false in
        simp (operand true false c, t10, t9, t6, t3, t0, a25, a21, a20, a16, a12, a4, low_register)
    thumb_sum-arm_sum false true =
        let (t10, t9, t6, t3, t0) = thumb_fields false true in
        let (a25, a21, a20, a16, a12, a8, a7, a5, a4, a0, a00) = arm_fields false true in
        simp (operand false true c, t10, t9, t6, t3, t0, a25, a21, a20, a16, a12, a4, low_register)
    thumb_sum-arm_sum false false =
        let (t10, t9, t6, t3, t0) = thumb_fields false false in
        let (a25, a21, a20, a16, a12, a8, a7, a5, a4, a0, a00) = arm_fields false false in
        simp (operand false false c, t10, t9, t6, t3, t0, a25, a21, a20, a16, a12, a4, low_register)
