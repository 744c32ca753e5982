-- ===== src/Cpu/Alu.antt =====
-- The barrel shifter and the adder with flags: candidates/gba-core/src/cpu/alu.rs.
pub mod Shifts
pub mod SignedShifts
pub mod Rotates
pub mod Sums
pub mod Compare
use gba_eval.Base.{
  ℕ, ◌+◌, ◌-◌, ◌*◌, ◌/◌, ◌%◌, ◌^◌, ◌==◌, ◌!=◌, ◌&&◌, ltb, leb, Bool, true, false, if◌then◌else◌,
  bit_and, bit_xor, not32, u32, u8, test_bit, put_bit, of_bool, low_bits, ◌>>>◌, ◌<<<◌,
}
use gba_eval.Cpu.{Cpu, c_bit, v_bit, set_nz, carry}

unfoldable pub lsl : ℕ → ℕ → Bool → ℕ × Bool
lsl v amt carry_in =
    if amt == 0
    then (v, carry_in)
    else if leb amt 31
    then (u32 (v <<< amt), test_bit (32 - amt) v)
    else if amt == 32
    then (0, test_bit 0 v)
    else (0, false)

-- An immediate shift by 0 is one by 32.
abbrev pub imm_amount : Bool → ℕ → ℕ
imm_amount imm_form amt = if imm_form && (amt == 0) then 32 else amt

unfoldable pub lsr : ℕ → ℕ → Bool → Bool → ℕ × Bool
lsr v amt₀ carry_in imm_form =
    let amt = imm_amount imm_form amt₀ in
    if amt == 0
    then (v, carry_in)
    else if leb amt 31
    then (v >>> amt, test_bit (amt - 1) v)
    else if amt == 32
    then (0, (v >>> 31) != 0)
    else (0, false)

-- `((v as i32) >> amt) as u32`: a negative `v` is `v - 2 ^ 32`, and the quotient is rounded down.
abbrev pub asr_word : ℕ → ℕ → ℕ
asr_word v amt = if (v >>> 31) != 0 then u32 ((v + (2 ^ amt - 1) * 2 ^ 32) >>> amt) else v >>> amt

unfoldable pub asr : ℕ → ℕ → Bool → Bool → ℕ × Bool
asr v amt₀ carry_in imm_form =
    let amt = imm_amount imm_form amt₀ in
    if amt == 0
    then (v, carry_in)
    else if leb amt 31
    then (asr_word v amt, test_bit (amt - 1) v)
    else let sign = (v >>> 31) != 0 in (if sign then 0xffff_ffff else 0, sign)

-- `v.rotate_right(amt)` at an amount from 1 to 31.
abbrev pub rotate_right : ℕ → ℕ → ℕ
rotate_right v amt = v % 2 ^ amt * 2 ^ (32 - amt) + v / 2 ^ amt

pub ror : ℕ → ℕ → Bool → Bool → ℕ × Bool
ror v amt carry_in imm_form =
    if imm_form && (amt == 0)
    then ((v >>> 1) + of_bool carry_in * 2 ^ 31, test_bit 0 v)
    else if amt == 0
    then (v, carry_in)
    else let amt' = low_bits 5 amt in
      if amt' == 0
      then (v, (v >>> 31) != 0)
      else let out = rotate_right v amt' in (out, (out >>> 31) != 0)

-- The result, the carry out and the signed overflow.
pub add_flags : ℕ → ℕ → ℕ → ℕ × Bool × Bool
add_flags a b carry_in =
    let r = a + b + carry_in in
    let res = u32 r in
    let overflow = (bit_and (bit_xor a res) (bit_xor b res) >>> 31) != 0 in
    (res, ltb 0xffff_ffff r, overflow)

pub sub_flags : ℕ → ℕ → ℕ → ℕ × Bool × Bool
unfolding add_flags
sub_flags a b carry_in = add_flags a (not32 b) carry_in

-- N and Z from the result, then C and V.
set_flags : ℕ × Bool × Bool → Cpu → ℕ × Cpu
unfolding set_nz
set_flags (r, c, v) cpu =
    let cpu' = set_nz r cpu in
    (r, record cpu' { cpsr = put_bit v_bit v (put_bit c_bit c cpu'.cpsr) })

unfoldable pub alu_add_setflags : ℕ → ℕ → Cpu → ℕ × Cpu
unfolding set_flags add_flags
alu_add_setflags a b cpu = set_flags (add_flags a b 0) cpu

unfoldable pub alu_sub_setflags : ℕ → ℕ → Cpu → ℕ × Cpu
unfolding set_flags sub_flags
alu_sub_setflags a b cpu = set_flags (sub_flags a b 1) cpu

pub alu_adc_setflags : ℕ → ℕ → Cpu → ℕ × Cpu
unfolding set_flags add_flags carry
alu_adc_setflags a b cpu = set_flags (add_flags a b (of_bool (carry cpu))) cpu

pub alu_sbc_setflags : ℕ → ℕ → Cpu → ℕ × Cpu
unfolding set_flags sub_flags carry
alu_sbc_setflags a b cpu = set_flags (sub_flags a b (of_bool (carry cpu))) cpu
