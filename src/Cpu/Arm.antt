-- ===== src/Cpu/Arm.antt =====
-- The decoder of the 32-bit instructions: candidates/gba-core/src/cpu/arm.rs.
pub mod Branch
pub mod DataProcessing
pub mod Multiply
pub mod Transfer
pub mod Block
use gba_eval.Base.{
  ℕ, ◌+◌, ◌-◌, ◌*◌, ◌/◌, ◌%◌, ◌^◌, ◌==◌, ◌!=◌, ◌&&◌, ◌||◌, not, Bool, true, false, if◌then◌else◌,
  bit_and, low_bits, field, ◌>>>◌,
}
use gba_eval.Cpu.{Cpu}
use gba_eval.Cpu.Pipeline.{BusOps, Outcome}
use gba_eval.Cpu.Arm.Branch.{arm_bx, arm_swi, arm_branch}
use gba_eval.Cpu.Arm.DataProcessing.{arm_data_processing}
use gba_eval.Cpu.Arm.Multiply.{arm_multiply, arm_multiply_long}
use gba_eval.Cpu.Arm.Transfer.{
  arm_single_transfer, arm_halfword_transfer, arm_swap, arm_mrs, arm_msr,
}
use gba_eval.Cpu.Arm.Block.{arm_block_transfer}

-- The classes of instructions.
pub data ArmClass : Type 0 where
  bx swi branch block_transfer swap multiply multiply_long halfword_transfer mrs msr : ArmClass
  single_transfer data_processing undefined_class : ArmClass

-- The tests of the decoder in their order.
unfoldable pub arm_class : ℕ → ArmClass
arm_class op =
    let bits27_20 = field 20 8 op in
    let bits7_4 = field 4 4 op in
    if bit_and op 0x0fff_fff0 == 0x012f_ff10
    then bx
    else if bits27_20 >>> 4 == 0xf
    then swi
    else if bits27_20 >>> 5 == 0x5
    then branch
    else if bits27_20 >>> 5 == 0x4
    then block_transfer
    else if (bit_and bits27_20 0xfb == 0x10) && (bits7_4 == 0x9)
    then swap
    else if (bits7_4 == 0x9) && (bit_and bits27_20 0xfc == 0x00)
    then multiply
    else if (bits7_4 == 0x9) && (bit_and bits27_20 0xf8 == 0x08)
    then multiply_long
    else if (bit_and bits7_4 0x9 == 0x9)
        && (bit_and bits7_4 0x6 != 0)
        && (bit_and bits27_20 0xe0 == 0x00)
    then halfword_transfer
    else if bit_and op 0x0fbf_0fff == 0x010f_0000
    then mrs
    else if (bit_and op 0x0fb0_fff0 == 0x0120_f000) || (bit_and op 0x0fb0_f000 == 0x0320_f000)
    then msr
    else if field 26 2 op == 1
    then single_transfer
    else if field 26 2 op == 0
    then data_processing
    else undefined_class

module _ {B : Type 0} (ops : BusOps B) where
  -- An instruction that leaves the bus alone.
  abbrev internal : ℕ × Cpu → B → Outcome B
  internal (n, c) b = (n, c, b)

  unfoldable pub execute_class : ArmClass → ℕ → Cpu → B → Outcome B
  execute_class bx op c b = arm_bx ops op c b
  execute_class swi op c b = arm_swi ops op c b
  execute_class branch op c b = arm_branch ops op c b
  execute_class block_transfer op c b = arm_block_transfer ops op c b
  execute_class swap op c b = arm_swap ops op c b
  execute_class multiply op c b = internal (arm_multiply op c) b
  execute_class multiply_long op c b = internal (arm_multiply_long op c) b
  execute_class halfword_transfer op c b = arm_halfword_transfer ops op c b
  execute_class mrs op c b = internal (arm_mrs op c) b
  execute_class msr op c b = internal (arm_msr op c) b
  execute_class single_transfer op c b = arm_single_transfer ops op c b
  execute_class data_processing op c b = arm_data_processing ops op c b
  execute_class undefined_class op c b = (1, c, b)

  unfoldable pub exec_arm : ℕ → Cpu → B → Outcome B
  exec_arm op c b = execute_class (arm_class op) op c b
