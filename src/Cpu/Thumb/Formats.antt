-- ===== src/Cpu/Thumb/Formats.antt =====
-- The decoder of the 16-bit instructions against the ranges of the opcode.
use gba_eval.Base.{ℕ, ◌/◌, ◌%◌, ◌^◌, ◌<◌, ◌==◌, ◌≡◌, zero, suc, refl, if◌then◌else◌, ltb, arith}
use gba_eval.Cpu.Thumb.{
  ThumbFormat, move_shifted, add_sub, imm_op, alu, hireg_bx, pc_relative_load, load_store_reg,
  load_store_sign, load_store_imm, load_store_halfword, sp_relative, load_address, adjust_sp,
  push_pop, multiple, cond_branch, swi, uncond_branch, long_branch, unimplemented, thumb_format,
}

-- The formats in the order of their opcodes.
abbrev pub format_table : ℕ → ThumbFormat
format_table op =
    if ltb op 0x1800
    then move_shifted
    else if ltb op 0x2000
    then add_sub
    else if ltb op 0x4000
    then imm_op
    else if ltb op 0x4400
    then alu
    else if ltb op 0x4800
    then hireg_bx
    else if ltb op 0x5000
    then pc_relative_load
    else if ltb op 0x6000
    then (if op % 0x400 / 0x200 == 0 then load_store_reg else load_store_sign)
    else if ltb op 0x8000
    then load_store_imm
    else if ltb op 0x9000
    then load_store_halfword
    else if ltb op 0xa000
    then sp_relative
    else if ltb op 0xb000
    then load_address
    else if ltb op 0xb100
    then adjust_sp
    else if ltb op 0xc000
    then (if op % 0x800 / 0x200 == 2 then push_pop else unimplemented)
    else if ltb op 0xd000
    then multiple
    else if ltb op 0xdf00
    then cond_branch
    else if ltb op 0xe000
    then swi
    else if ltb op 0xe800
    then uncond_branch
    else long_branch

top_0 : (op : ℕ) → op / 2 ^ 8 / 2 ^ 5 ≡ 0 → thumb_format op ≡ format_table op
unfolding thumb_format
top_0 op h = rw h (ground arith)

top_1 : (op : ℕ) → op / 2 ^ 8 / 2 ^ 5 ≡ 1 → thumb_format op ≡ format_table op
unfolding thumb_format
top_1 op h = rw h (ground arith)

top_2 : (op : ℕ) → op / 2 ^ 8 / 2 ^ 5 ≡ 2 → thumb_format op ≡ format_table op
unfolding thumb_format
top_2 op h = rw h (ground arith)

top_3 : (op : ℕ) → op / 2 ^ 8 / 2 ^ 5 ≡ 3 → thumb_format op ≡ format_table op
unfolding thumb_format
top_3 op h = rw h (ground arith)

top_4 : (op : ℕ) → op / 2 ^ 8 / 2 ^ 5 ≡ 4 → thumb_format op ≡ format_table op
unfolding thumb_format
top_4 op h = rw h (ground arith)

top_5 : (op : ℕ) → op / 2 ^ 8 / 2 ^ 5 ≡ 5 → thumb_format op ≡ format_table op
unfolding thumb_format
top_5 op h = rw h (ground arith)

top_6 : (op : ℕ) → op / 2 ^ 8 / 2 ^ 5 ≡ 6 → thumb_format op ≡ format_table op
unfolding thumb_format
top_6 op h = rw h (ground arith)

top_7 : (op : ℕ) → op / 2 ^ 8 / 2 ^ 5 ≡ 7 → thumb_format op ≡ format_table op
unfolding thumb_format
top_7 op h = rw h (ground arith)

-- Every 16-bit opcode decodes to the format of its range: the nested tests of the decoder overlap
-- nowhere and leave only the unused part of 0xb100 to 0xbfff without an instruction.
pub thumb_format-table : (op : ℕ) → op < 2 ^ 16 → thumb_format op ≡ format_table op
thumb_format-table op h = by_top (op / 2 ^ 8 / 2 ^ 5) refl (omega arith)
  where
    by_top : (k : ℕ) → op / 2 ^ 8 / 2 ^ 5 ≡ k → k < 8 → thumb_format op ≡ format_table op
    by_top zero e l = top_0 op e
    by_top (suc zero) e l = top_1 op e
    by_top (suc (suc zero)) e l = top_2 op e
    by_top (suc (suc (suc zero))) e l = top_3 op e
    by_top (suc (suc (suc (suc zero)))) e l = top_4 op e
    by_top (suc (suc (suc (suc (suc zero))))) e l = top_5 op e
    by_top (suc (suc (suc (suc (suc (suc zero)))))) e l = top_6 op e
    by_top (suc (suc (suc (suc (suc (suc (suc zero))))))) e l = top_7 op e
    by_top (suc (suc (suc (suc (suc (suc (suc (suc k)))))))) e l = absurd (omega arith)
