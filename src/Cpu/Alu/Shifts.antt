-- ===== src/Cpu/Alu/Shifts.antt =====
-- The barrel shifter against a shifter that moves by one place at a time.
use native.Mathlib.Nat.{one-le-pow, mul-div-mul_right}
use gba_eval.Base.{
  ℕ, zero, suc, ◌+◌, ◌-◌, ◌*◌, ◌/◌, ◌%◌, ◌^◌, ◌<◌, ◌≤◌, ◌≡◌, refl, Bool, true, false, arith, u32,
  test_bit, iterate, ap, ◌∙◌, sym, pow-mul-pow, mul-pow-suc, div-pow-suc,
}
use gba_eval.Cpu.Alu.{lsl, lsr, imm_amount}

-- One place: the bit that falls out becomes the carry.
abbrev pub lsl_one : ℕ × Bool → ℕ × Bool
lsl_one (v, c) = (u32 (v * 2), test_bit 31 v)

abbrev pub lsr_one : ℕ × Bool → ℕ × Bool
lsr_one (v, c) = (v / 2, test_bit 0 v)

-- The digit that leaves on the left.
left_digit : (n v : ℕ) → n ≤ 31 → v * 2 ^ n % 2 ^ 32 / 2 ^ 31 % 2 ≡ v / 2 ^ (32 - suc n) % 2
left_digit n v h =
    let e : 32 - suc n ≡ 31 - n = omega arith in
    let k : 31 - n + n ≡ 31 = omega arith in
    let quotient : v * 2 ^ n / (2 ^ (31 - n) * 2 ^ n) ≡ v / 2 ^ (31 - n) =
      mul-div-mul_right v (2 ^ (31 - n)) (one-le-pow n 2 (omega arith)) in
    let whole : 2 ^ (31 - n) * 2 ^ n ≡ 2 ^ 31 = pow-mul-pow (31 - n) n ∙ ap (λ (t : ℕ). 2 ^ t) k in
    let digit : v * 2 ^ n / 2 ^ 31 ≡ v / 2 ^ (31 - n) =
      ap (λ (t : ℕ). v * 2 ^ n / t) (sym whole) ∙ quotient in
    rw e (omega (arith, digit))

lsl-suc : (n v : ℕ) (c : Bool) → v < 2 ^ 32 → lsl v (suc n) c ≡ lsl_one (lsl v n c)
unfolding lsl
lsl-suc n v c p = ground (arith, left_digit n v, mul-pow-suc v n)

-- A left shift by any amount is that many shifts by one place, the carry included.
pub lsl_iterated : (v amt : ℕ) (c : Bool) → v < 2 ^ 32 → lsl v amt c ≡ iterate amt lsl_one (v, c)
lsl_iterated v zero c p = unfold lsl in refl
lsl_iterated v (suc n) c p = lsl-suc n v c p ∙ ap lsl_one (lsl_iterated v n c p)

lsr-suc : (n v : ℕ) (c : Bool) → v < 2 ^ 32 → lsr v (suc n) c false ≡ lsr_one (lsr v n c false)
unfolding lsr
lsr-suc n v c p = ground (arith, div-pow-suc v n)

lsr_iterated_reg :
    (v amt : ℕ) (c : Bool) → v < 2 ^ 32 → lsr v amt c false ≡ iterate amt lsr_one (v, c)
lsr_iterated_reg v zero c p = unfold lsr in refl
lsr_iterated_reg v (suc n) c p = lsr-suc n v c p ∙ ap lsr_one (lsr_iterated_reg v n c p)

pub imm_amount-suc : (n : ℕ) → imm_amount true (suc n) ≡ suc n
imm_amount-suc n = ground arith

-- A logical right shift by any amount is that many shifts by one place, the carry included; an
-- immediate 0 counts as 32.
lsr_iterated :
    (v amt : ℕ) (c imm : Bool)
    → v < 2 ^ 32
    → lsr v amt c imm ≡ iterate (imm_amount imm amt) lsr_one (v, c)
lsr_iterated v zero c true p = shift_32 ∙ lsr_iterated_reg v 32 c p
  where
    shift_32 : lsr v 0 c true ≡ lsr v 32 c false
    shift_32 = unfold lsr in refl
lsr_iterated v (suc n) c true p = unfold lsr in ground (arith, lsr_iterated_reg v (suc n) c p)
lsr_iterated v amt c false p = lsr_iterated_reg v amt c p
