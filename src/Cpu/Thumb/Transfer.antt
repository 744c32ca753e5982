-- ===== src/Cpu/Thumb/Transfer.antt =====
-- The Thumb loads and stores: candidates/gba-core/src/cpu/thumb.rs.
use gba_eval.Base.{
  ℕ, ◌+◌, ◌*◌, Bool, true, false, if◌then◌else◌, add32, sub32, u16, low_bits, high_bits, test_bit,
  field, of_bool,
}
use gba_eval.Cpu.{Cpu}
use gba_eval.Cpu.Pipeline.{BusOps, Outcome, set_reg, flushed, sign_extend8, sign_extend16}
use gba_eval.Cpu.Arm.Transfer.{load_unsigned, store_unsigned}
use gba_eval.Cpu.Arm.Block.{count_ones, transfer_list}

module _ {B : Type 0} (ops : BusOps B) where
  pub thumb_pc_relative_load : ℕ → Cpu → B → Outcome B
  thumb_pc_relative_load op c b =
      let addr = add32 (high_bits 2 (c.r 15)) (low_bits 8 op * 4) in
      let (v, b') = ops.read32 addr (c.r 15) b in (3, set_reg (field 8 3 op) v c, b')

  -- A word or a byte between a low register and an address.
  abbrev pub load_store : Bool → Bool → ℕ → ℕ → Cpu → B → Outcome B
  load_store load byte rd addr c b =
      if load
      then (let (v, b') = load_unsigned ops byte addr (c.r 15) b in (3, set_reg rd v c, b'))
      else (2, c, store_unsigned ops byte addr (c.r rd) b)

  pub thumb_load_store_reg : ℕ → Cpu → B → Outcome B
  thumb_load_store_reg op c b =
      let addr = add32 (c.r (field 3 3 op)) (c.r (field 6 3 op)) in
      load_store (test_bit 11 op) (test_bit 10 op) (low_bits 3 op) addr c b

  pub thumb_load_store_sign : ℕ → Cpu → B → Outcome B
  thumb_load_store_sign op c b =
      let h_flag = test_bit 11 op in
      let sign = test_bit 10 op in
      let rd = low_bits 3 op in
      let addr = add32 (c.r (field 3 3 op)) (c.r (field 6 3 op)) in
      if sign
      then (if h_flag
          then (let (v, b') = ops.read16 addr (c.r 15) b in (3, set_reg rd (sign_extend16 v) c, b'))
          else let (v, b') = ops.read8 addr (c.r 15) b in (3, set_reg rd (sign_extend8 v) c, b'))
      else if h_flag
      then (let (v, b') = ops.read16 addr (c.r 15) b in (3, set_reg rd v c, b'))
      else (2, c, ops.write16 addr (u16 (c.r rd)) b)

  unfoldable pub thumb_load_store_imm : ℕ → Cpu → B → Outcome B
  thumb_load_store_imm op c b =
      let byte = test_bit 12 op in
      let offset = field 6 5 op in
      let addr = add32 (c.r (field 3 3 op)) (if byte then offset else offset * 4) in
      load_store (test_bit 11 op) byte (low_bits 3 op) addr c b

  pub thumb_load_store_halfword : ℕ → Cpu → B → Outcome B
  thumb_load_store_halfword op c b =
      let rd = low_bits 3 op in
      let addr = add32 (c.r (field 3 3 op)) (field 6 5 op * 2) in
      if test_bit 11 op
      then (let (v, b') = ops.read16 addr (c.r 15) b in (3, set_reg rd v c, b'))
      else (2, c, ops.write16 addr (u16 (c.r rd)) b)

  pub thumb_sp_relative : ℕ → Cpu → B → Outcome B
  thumb_sp_relative op c b =
      let rd = field 8 3 op in
      let addr = add32 (c.r 13) (low_bits 8 op * 4) in
      if test_bit 11 op
      then (let (v, b') = ops.read32 addr (c.r 15) b in (3, set_reg rd v c, b'))
      else (2, c, ops.write32 addr (c.r rd) b)

  -- The last word of a POP goes into the program counter.
  abbrev pub pop_pc : ℕ → Cpu → B → ℕ × Cpu × B
  pop_pc addr c b =
      let (v, b') = ops.read32 addr (c.r 15) b in
      let (_, c', b'') = flushed ops 0 (set_reg 15 (high_bits 1 v) c) b' in (add32 addr 4, c', b'')

  unfoldable pub thumb_push_pop : ℕ → Cpu → B → Outcome B
  thumb_push_pop op c b =
      let pclr = test_bit 8 op in
      let rlist = low_bits 8 op in
      let count = count_ones 8 rlist + of_bool pclr in
      if test_bit 11 op
      then (let (addr, c₁, b₁) = transfer_list ops 8 0 true rlist (c.r 13) c b in
          let (addr', c₂, b₂) = if pclr then pop_pc addr c₁ b₁ else (addr, c₁, b₁) in
          (if pclr then count + 4 else count + 2, set_reg 13 addr' c₂, b₂))
      else let bottom = sub32 (c.r 13) (count * 4) in
        let (addr, c₁, b₁) = transfer_list ops 8 0 false rlist bottom (set_reg 13 bottom c) b in
        (count + 1, c₁, if pclr then ops.write32 addr (c₁.r 14) b₁ else b₁)

  pub thumb_multiple : ℕ → Cpu → B → Outcome B
  thumb_multiple op c b =
      let load = test_bit 11 op in
      let rb = field 8 3 op in
      let rlist = low_bits 8 op in
      let (addr, c₁, b₁) = transfer_list ops 8 0 load rlist (c.r rb) c b in
      let c₂ =
        if load
        then (if test_bit rb rlist then c₁ else set_reg rb addr c₁)
        else set_reg rb addr c₁ in
      (count_ones 8 rlist + (if load then 2 else 1), c₂, b₁)
