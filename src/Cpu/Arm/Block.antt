-- ===== src/Cpu/Arm/Block.antt =====
-- Block transfers: candidates/gba-core/src/cpu/arm.rs. The loop over the register list also serves
-- the Thumb instructions, with eight rounds.
use gba_eval.Base.{
  ℕ, zero, suc, ◌+◌, ◌*◌, ◌/◌, ◌%◌, ◌==◌, ◌&&◌, ◌||◌, not, Bool, true, false, if◌then◌else◌, add32,
  sub32, u32, low_bits, test_bit, field,
}
use gba_eval.Cpu.{Cpu, Mode, mode_eq, switch_mode, user, system}
use gba_eval.Cpu.Pipeline.{BusOps, Outcome, set_reg, flushed}
use gba_eval.Cpu.Arm.DataProcessing.{restore_status}

-- `rlist.count_ones()` of a list of `n` registers
unfoldable pub count_ones : ℕ → ℕ → ℕ
count_ones zero x = 0
count_ones (suc n) x = x % 2 + count_ones n (x / 2)

-- The lowest address of the block, and the base after it.
unfoldable pub block_start : Bool → Bool → ℕ → ℕ → ℕ
block_start up pre addr count =
    if up
    then (if pre then add32 addr 4 else addr)
    else if pre
    then sub32 addr (u32 (count * 4))
    else add32 (sub32 addr (u32 (count * 4))) 4

unfoldable pub block_final : Bool → ℕ → ℕ → ℕ
block_final up addr count =
    if up then add32 addr (u32 (count * 4)) else sub32 addr (u32 (count * 4))

module _ {B : Type 0} (ops : BusOps B) where
  -- One register in or out, and the next address.
  abbrev transfer_one : Bool → ℕ → ℕ → Cpu → B → ℕ × Cpu × B
  transfer_one true i cur c b =
      let (v, b') = ops.read32 cur (c.r 15) b in (add32 cur 4, set_reg i v c, b')
  transfer_one false i cur c b =
      let val = if i == 15 then add32 (c.r 15) 4 else c.r i in
      (add32 cur 4, c, ops.write32 cur val b)

  -- The rounds left, the register of this round, the direction and the list.
  unfoldable pub transfer_list : ℕ → ℕ → Bool → ℕ → ℕ → Cpu → B → ℕ × Cpu × B
  transfer_list zero i load rlist cur c b = (cur, c, b)
  transfer_list (suc n) i load rlist cur c b =
      let (cur', c', b') = if test_bit i rlist then transfer_one load i cur c b else (cur, c, b) in
      transfer_list n (suc i) load rlist cur' c' b'

  abbrev privileged : Mode → Bool
  privileged m = not (mode_eq m user) && not (mode_eq m system)

  unfoldable pub arm_block_transfer : ℕ → Cpu → B → Outcome B
  arm_block_transfer op c b =
      let p_bit = test_bit 24 op in
      let u_bit = test_bit 23 op in
      let s_bit = test_bit 22 op in
      let l_bit = test_bit 20 op in
      let rn = field 16 4 op in
      let rlist = low_bits 16 op in
      let count = count_ones 16 rlist in
      let addr = c.r rn in
      let user_bank = s_bit && (not l_bit || not (test_bit 15 rlist)) in
      let switched = user_bank && privileged c.mode in
      let c₁ = if switched then switch_mode user c else c in
      let (_, c₂, b₂) = transfer_list 16 0 l_bit rlist (block_start u_bit p_bit addr count) c₁ b in
      let c₃ = if switched then switch_mode c.mode c₂ else c₂ in
      let c₄ =
        if test_bit 21 op && not (l_bit && test_bit rn rlist)
        then set_reg rn (block_final u_bit addr count) c₃
        else c₃ in
      if count == 0
      then (1, c, b)
      else if l_bit && test_bit 15 rlist
      then flushed ops (count + 4) (if s_bit then restore_status c₄ else c₄) b₂
      else (count + (if l_bit then 2 else 1), c₄, b₂)
