-- ===== src/Cpu/Arm/Multiply.antt =====
-- Multiplication: candidates/gba-core/src/cpu/arm.rs.
pub mod Exact
use gba_eval.Base.{
  ℕ, ◌+◌, ◌-◌, ◌*◌, ◌/◌, ◌%◌, ◌^◌, ◌==◌, ◌<<<◌, ◌>>>◌, ◌!=◌, ◌||◌, Bool, true, false, if◌then◌else◌,
  add32, u32, u64, low_bits, high_bits, test_bit, put_bit, field, bit_or, ltb,
}
use gba_eval.Cpu.{Cpu, set_nz, n_bit, z_bit}
use gba_eval.Cpu.Pipeline.{set_reg}

-- The rounds of the multiplier, from the leading digits of the word.
pub multiply_cycles : ℕ → ℕ
multiply_cycles v =
    if (high_bits 8 v == 0) || (high_bits 8 v == 0xffff_ff00)
    then 1
    else if (high_bits 16 v == 0) || (high_bits 16 v == 0xffff_0000)
    then 2
    else if (high_bits 24 v == 0) || (high_bits 24 v == 0xff00_0000)
    then 3
    else 4

pub arm_multiply : ℕ → Cpu → ℕ × Cpu
unfolding multiply_cycles
arm_multiply op c =
    let accumulate = test_bit 21 op in
    let rd = field 16 4 op in
    let rs = field 8 4 op in
    let product = u32 (c.r (low_bits 4 op) * c.r rs) in
    let result = if accumulate then add32 product (c.r (field 12 4 op)) else product in
    let c₁ = set_reg rd result c in
    let c₂ = if test_bit 20 op then set_nz result c₁ else c₁ in
    let m = multiply_cycles (c₂.r rs) in (if accumulate then m + 1 else m, c₂)

-- `v as i32 as i64 as u64`
abbrev pub sign_extend32 : ℕ → ℕ
sign_extend32 v = if ltb v (2 ^ 31) then v else v + (2 ^ 64 - 2 ^ 32)

pub long_product : Bool → ℕ → ℕ → ℕ
long_product signed x y = if signed then u64 (sign_extend32 x * sign_extend32 y) else x * y

-- The two halves of the result, and N and Z of the whole.
write_long : ℕ → ℕ → Bool → ℕ → Cpu → Cpu
write_long rdhi rdlo flags result c =
    let c₁ = set_reg rdlo (u32 result) (set_reg rdhi (result >>> 32) c) in
    if flags
    then record c₁ {
      cpsr = put_bit z_bit (result == 0) (put_bit n_bit ((result >>> 63) != 0) c₁.cpsr);
    }
    else c₁

pub arm_multiply_long : ℕ → Cpu → ℕ × Cpu
arm_multiply_long op c =
    let accumulate = test_bit 21 op in
    let rdhi = field 16 4 op in
    let rdlo = field 12 4 op in
    let product = long_product (test_bit 22 op) (c.r (low_bits 4 op)) (c.r (field 8 4 op)) in
    let acc = bit_or (c.r rdhi <<< 32) (c.r rdlo) in
    let result = if accumulate then u64 (product + acc) else product in
    (if accumulate then 4 else 3, write_long rdhi rdlo (test_bit 20 op) result c)
