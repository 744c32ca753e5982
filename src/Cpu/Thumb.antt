-- ===== src/Cpu/Thumb.antt =====
-- The decoder of the 16-bit instructions: candidates/gba-core/src/cpu/thumb.rs.
pub mod Arithmetic
pub mod Transfer
pub mod Branch
pub mod Formats
pub mod Expansion
use gba_eval.Base.{
  ℕ, ◌+◌, ◌-◌, ◌*◌, ◌/◌, ◌%◌, ◌^◌, ◌==◌, Bool, true, false, if◌then◌else◌, ◌>>>◌, ◌&&◌, test_bit,
  field,
}
use gba_eval.Cpu.{Cpu}
use gba_eval.Cpu.Pipeline.{BusOps, Outcome}
use gba_eval.Cpu.Thumb.Arithmetic.{
  thumb_move_shifted, thumb_add_sub, thumb_imm_op, thumb_alu, thumb_load_address, thumb_adjust_sp,
}
use gba_eval.Cpu.Thumb.Transfer.{
  thumb_pc_relative_load, thumb_load_store_reg, thumb_load_store_sign, thumb_load_store_imm,
  thumb_load_store_halfword, thumb_sp_relative, thumb_push_pop, thumb_multiple,
}
use gba_eval.Cpu.Thumb.Branch.{
  thumb_hireg_bx, thumb_cond_branch, thumb_swi, thumb_uncond_branch, thumb_long_branch,
}

-- The formats of the instructions.
pub data ThumbFormat : Type 0 where
  move_shifted add_sub imm_op alu hireg_bx pc_relative_load : ThumbFormat
  load_store_reg load_store_sign load_store_imm load_store_halfword sp_relative : ThumbFormat
  load_address adjust_sp push_pop multiple cond_branch swi : ThumbFormat
  uncond_branch long_branch unimplemented : ThumbFormat

format_010 : ℕ → ThumbFormat
format_010 op =
    if op >>> 12 == 0b0100
    then (if op >>> 10 == 0b010000
        then alu
        else if op >>> 10 == 0b010001
        then hireg_bx
        else pc_relative_load)
    else if op >>> 12 == 0b0101
    then (if test_bit 9 op then load_store_sign else load_store_reg)
    else unimplemented

format_101 : ℕ → ThumbFormat
format_101 op =
    if op >>> 12 == 0b1010
    then load_address
    else if op >>> 8 == 0b10110000
    then adjust_sp
    else if (op >>> 12 == 0b1011) && (field 9 2 op == 0b10)
    then push_pop
    else unimplemented

format_110 : ℕ → ThumbFormat
format_110 op =
    if op >>> 12 == 0b1100
    then multiple
    else if op >>> 8 == 0b11011111
    then swi
    else if op >>> 12 == 0b1101
    then cond_branch
    else unimplemented

-- The tests of the decoder in their order.
pub thumb_format : ℕ → ThumbFormat
unfolding format_010 format_101 format_110
thumb_format op =
    let top = (op >>> 8) >>> 5 in
    if top == 0b000
    then (if op >>> 11 == 0b00011 then add_sub else move_shifted)
    else if top == 0b001
    then imm_op
    else if top == 0b010
    then format_010 op
    else if top == 0b011
    then load_store_imm
    else if top == 0b100
    then (if op >>> 12 == 0b1000 then load_store_halfword else sp_relative)
    else if top == 0b101
    then format_101 op
    else if top == 0b110
    then format_110 op
    else if top == 0b111
    then (if op >>> 11 == 0b11100 then uncond_branch else long_branch)
    else unimplemented

module _ {B : Type 0} (ops : BusOps B) where
  -- An instruction that leaves the bus alone.
  abbrev internal : ℕ × Cpu → B → Outcome B
  internal (n, c) b = (n, c, b)

  pub execute_format : ThumbFormat → ℕ → Cpu → B → Outcome B
  execute_format move_shifted op c b = internal (thumb_move_shifted op c) b
  execute_format add_sub op c b = internal (thumb_add_sub op c) b
  execute_format imm_op op c b = internal (thumb_imm_op op c) b
  execute_format alu op c b = internal (thumb_alu op c) b
  execute_format hireg_bx op c b = thumb_hireg_bx ops op c b
  execute_format pc_relative_load op c b = thumb_pc_relative_load ops op c b
  execute_format load_store_reg op c b = thumb_load_store_reg ops op c b
  execute_format load_store_sign op c b = thumb_load_store_sign ops op c b
  execute_format load_store_imm op c b = thumb_load_store_imm ops op c b
  execute_format load_store_halfword op c b = thumb_load_store_halfword ops op c b
  execute_format sp_relative op c b = thumb_sp_relative ops op c b
  execute_format load_address op c b = internal (thumb_load_address op c) b
  execute_format adjust_sp op c b = internal (thumb_adjust_sp op c) b
  execute_format push_pop op c b = thumb_push_pop ops op c b
  execute_format multiple op c b = thumb_multiple ops op c b
  execute_format cond_branch op c b = thumb_cond_branch ops op c b
  execute_format swi op c b = thumb_swi ops op c b
  execute_format uncond_branch op c b = thumb_uncond_branch ops op c b
  execute_format long_branch op c b = thumb_long_branch ops op c b
  execute_format unimplemented op c b = (1, c, b)

  unfoldable pub exec_thumb : ℕ → Cpu → B → Outcome B
  exec_thumb op c b = execute_format (thumb_format op) op c b
