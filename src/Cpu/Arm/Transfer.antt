-- ===== src/Cpu/Arm/Transfer.antt =====
-- Single transfers, swaps and the moves of the status registers:
-- candidates/gba-core/src/cpu/arm.rs.
use gba_eval.Base.{
  ℕ, ◌+◌, ◌*◌, ◌^◌, ◌==◌, ◌!=◌, ◌||◌, ◌&&◌, not, Bool, true, if◌then◌else◌, add32, sub32, u8, u16,
  low_bits, test_bit, field,
}
use gba_eval.Cpu.{Cpu, carry, spsr_bits, cpsr_bits, set_spsr_bits, set_cpsr_bits}
use gba_eval.Cpu.Alu.{rotate_right}
use gba_eval.Cpu.Pipeline.{BusOps, Outcome, set_reg, flush_pipeline, sign_extend8, sign_extend16}
use gba_eval.Cpu.Arm.DataProcessing.{shift_by, rotated_imm}

-- `base + offset` or `base - offset`
abbrev pub indexed : Bool → ℕ → ℕ → ℕ
indexed up base offset = if up then add32 base offset else sub32 base offset

-- The offset of LDR and STR, whose register form has bit 25 set.
unfoldable pub transfer_offset : ℕ → Cpu → ℕ
transfer_offset op c =
    if test_bit 25 op
    then (shift_by (field 5 2 op) (c.r (low_bits 4 op)) (field 7 5 op) (carry c) true).0
    else low_bits 12 op

-- The offset of the halfword and signed transfers: two nibbles, or a register.
pub halfword_offset : ℕ → Cpu → ℕ
halfword_offset op c =
    if test_bit 22 op then field 8 4 op * 2 ^ 4 + low_bits 4 op else c.r (low_bits 4 op)

-- The new base, unless the load was into it.
abbrev pub write_back : ℕ → ℕ → Cpu → Cpu
write_back op addr c =
    let rn = field 16 4 op in
    let rd = field 12 4 op in
    if (not (test_bit 24 op) || test_bit 21 op) && ((rn != rd) || not (test_bit 20 op))
    then set_reg rn addr c
    else c

module _ {B : Type 0} (ops : BusOps B) where
  -- A word load turns a misaligned address into a rotation.
  abbrev pub load_rotated : ℕ → ℕ → B → ℕ × B
  load_rotated addr pc b =
      let (raw, b') = ops.read32 addr pc b in (rotate_right raw (low_bits 2 addr * 8), b')

  abbrev pub load_unsigned : Bool → ℕ → ℕ → B → ℕ × B
  load_unsigned byte addr pc b = if byte then ops.read8 addr pc b else load_rotated addr pc b

  abbrev pub store_unsigned : Bool → ℕ → ℕ → B → B
  store_unsigned byte addr val b =
      if byte then ops.write8 addr (u8 val) b else ops.write32 addr val b

  -- `self.r[rd] = val`, with the refill where Rd is PC.
  unfoldable pub load_reg : ℕ → ℕ → Cpu → B → Cpu × B
  load_reg rd val c b =
      let c' = set_reg rd val c in if rd == 15 then flush_pipeline ops c' b else (c', b)

  unfoldable pub arm_single_transfer : ℕ → Cpu → B → Outcome B
  unfolding load_reg
  arm_single_transfer op c b =
      let byte = test_bit 22 op in
      let rd = field 12 4 op in
      let base = c.r (field 16 4 op) in
      let addr = indexed (test_bit 23 op) base (transfer_offset op c) in
      let effective = if test_bit 24 op then addr else base in
      if test_bit 20 op
      then (let (val, b₁) = load_unsigned byte effective (c.r 15) b in
          let (c₁, b₂) = load_reg rd val c b₁ in
          (if rd == 15 then 5 else 3, write_back op addr c₁, b₂))
      else let val = if rd == 15 then add32 (c.r 15) 4 else c.r rd in
        (2, write_back op addr c, store_unsigned byte effective val b)

  -- LDRH, LDRSB and LDRSH; a load of type 0 reads nothing and gives 0.
  abbrev pub load_signed : ℕ → ℕ → ℕ → B → ℕ × B
  load_signed sh addr pc b =
      if sh == 1
      then ops.read16 addr pc b
      else if sh == 2
      then (let (v, b') = ops.read8 addr pc b in (sign_extend8 v, b'))
      else if sh == 3
      then (let (v, b') = ops.read16 addr pc b in (sign_extend16 v, b'))
      else (0, b)

  pub arm_halfword_transfer : ℕ → Cpu → B → Outcome B
  unfolding load_reg
  arm_halfword_transfer op c b =
      let rd = field 12 4 op in
      let base = c.r (field 16 4 op) in
      let addr = indexed (test_bit 23 op) base (halfword_offset op c) in
      let effective = if test_bit 24 op then addr else base in
      if test_bit 20 op
      then (let (val, b₁) = load_signed (field 5 2 op) effective (c.r 15) b in
          let (c₁, b₂) = load_reg rd val c b₁ in (3, write_back op addr c₁, b₂))
      else (2, write_back op addr c, ops.write16 effective (u16 (c.r rd)) b)

  pub arm_swap : ℕ → Cpu → B → Outcome B
  arm_swap op c b =
      let byte = test_bit 22 op in
      let rd = field 12 4 op in
      let addr = c.r (field 16 4 op) in
      let (old, b₁) = load_unsigned byte addr (c.r 15) b in
      (4, set_reg rd old c, store_unsigned byte addr (c.r (low_bits 4 op)) b₁)

pub arm_mrs : ℕ → Cpu → ℕ × Cpu
arm_mrs op c = (1, set_reg (field 12 4 op) (if test_bit 22 op then spsr_bits c else cpsr_bits c) c)

-- The fields to write: the flags and the controls.
abbrev pub field_mask : ℕ → ℕ
field_mask op = (if test_bit 19 op then 0xff00_0000 else 0) + (if test_bit 16 op then 0xff else 0)

pub arm_msr : ℕ → Cpu → ℕ × Cpu
arm_msr op c =
    let val = if test_bit 25 op then rotated_imm op else c.r (low_bits 4 op) in
    (
      1,
      if test_bit 22 op
          then set_spsr_bits val (field_mask op) c
          else set_cpsr_bits val (field_mask op) c,
    )
