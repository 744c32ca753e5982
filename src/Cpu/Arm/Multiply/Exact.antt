-- ===== src/Cpu/Arm/Multiply/Exact.antt =====
-- The long products against multiplication.
use gba_eval.Base.{
  ℕ, ◌+◌, ◌-◌, ◌*◌, ◌^◌, ◌<◌, ◌≤◌, ◌≢◌, ◌==◌, ◌≡◌, refl, suc, Bool, true, false, arith, ap, ◌∙◌,
  if◌then◌else◌, ltb, field, low_bits, test_bit, bit_or-fields, u64, pos, sub_ℕ, signed32, ◌*ℤ◌,
  signed64, Bool-cases, inl, inr,
}
use native.Mathlib.Nat.{mul_comm}
use gba_eval.Cpu.{Cpu}
use gba_eval.Cpu.Arm.Multiply.{long_product, sign_extend32, arm_multiply_long, write_long}

-- The residue of a product of two negative numbers, and of one.
module _ (z p y : ℕ) (neg : z + p ≡ 2 ^ 64) (p-le : p ≤ 2 ^ 31) (y-le : y ≤ 2 ^ 31) where
  product_le : p * y ≤ 2 ^ 62
  product_le = grind arith

  half_negative : u64 (z * y) ≡ (if p * y == 0 then 0 else 2 ^ 64 - p * y)
  half_negative = ground (arith, ap (λ (t : ℕ). t * y) neg, product_le)

  both_negative : (w : ℕ) → w + y ≡ 2 ^ 64 → u64 (z * w) ≡ p * y
  both_negative w e = omega (arith, ap (λ (t : ℕ). z * t) e, ap (λ (t : ℕ). t * y) neg, product_le)

-- The four cases of the signs.
module _ (x y : ℕ) where
  positive : x < 2 ^ 31 → y < 2 ^ 31 → signed64 (u64 (x * y)) ≡ pos (x * y)
  positive hx hy =
      let small : x * y ≤ 2 ^ 62 =
        product_le (2 ^ 64 - x) x y (omega arith) (omega arith) (omega arith) in
      ground (arith, small)

  negative :
      2 ^ 31 ≤ x
      → x < 2 ^ 32
      → y < 2 ^ 31
      → signed64 (u64 (sign_extend32 x * y)) ≡ sub_ℕ 0 (suc (2 ^ 32 - x - 1) * y)
  negative lx hx hy =
      let magnitude : suc (2 ^ 32 - x - 1) ≡ 2 ^ 32 - x = omega arith in
      let wide : ltb x (2 ^ 31) ≡ false = ground arith in
      let sum : x + (2 ^ 64 - 2 ^ 32) + (2 ^ 32 - x) ≡ 2 ^ 64 = omega arith in
      rw (magnitude, wide)
        (ground (
          arith,
          half_negative (x + (2 ^ 64 - 2 ^ 32)) (2 ^ 32 - x) y sum (omega arith) (omega arith),
          product_le (x + (2 ^ 64 - 2 ^ 32)) (2 ^ 32 - x) y sum (omega arith) (omega arith),
        ))

  negatives :
      2 ^ 31 ≤ x
      → x < 2 ^ 32
      → 2 ^ 31 ≤ y
      → y < 2 ^ 32
      → signed64 (u64 (sign_extend32 x * sign_extend32 y))
        ≡ pos (suc (2 ^ 32 - x - 1) * suc (2 ^ 32 - y - 1))
  negatives lx hx ly hy =
      let ex : suc (2 ^ 32 - x - 1) ≡ 2 ^ 32 - x = omega arith in
      let ey : suc (2 ^ 32 - y - 1) ≡ 2 ^ 32 - y = omega arith in
      let wx : ltb x (2 ^ 31) ≡ false = ground arith in
      let wy : ltb y (2 ^ 31) ≡ false = ground arith in
      let sum : x + (2 ^ 64 - 2 ^ 32) + (2 ^ 32 - x) ≡ 2 ^ 64 = omega arith in
      rw (ex, ey, wx, wy)
        (ground (
          arith,
          both_negative (x + (2 ^ 64 - 2 ^ 32)) (2 ^ 32 - x) (2 ^ 32 - y) sum (omega arith)
              (omega arith) (y + (2 ^ 64 - 2 ^ 32)) (omega arith),
          product_le (x + (2 ^ 64 - 2 ^ 32)) (2 ^ 32 - x) (2 ^ 32 - y) sum (omega arith)
              (omega arith),
        ))

-- SMULL multiplies the signed numbers that the two words stand for, exactly.
pub long_product-signed :
    (x y : ℕ)
    → x < 2 ^ 32
    → y < 2 ^ 32
    → signed64 (long_product true x y) ≡ signed32 x *ℤ signed32 y
unfolding long_product
long_product-signed x y hx hy = elim (Bool-cases (ltb x (2 ^ 31))) [
  | inl px ↦ elim (Bool-cases (ltb y (2 ^ 31))) [
    | inl py ↦ rw (px, py) (positive x y (ground arith) (ground arith))
    | inr ny ↦
        let low : sign_extend32 x ≡ x = rw px refl in
        ap (λ (t : ℕ). signed64 (u64 t))
          (ap (λ (t : ℕ). t * sign_extend32 y) low ∙ mul_comm x (sign_extend32 y))
        ∙ negative y x (ground arith) hy (ground arith)
        ∙ rw (px, ny, mul_comm x (suc (2 ^ 32 - y - 1))) refl
  ]
  | inr nx ↦ elim (Bool-cases (ltb y (2 ^ 31))) [
    | inl py ↦
        let low : sign_extend32 y ≡ y = rw py refl in
        ap (λ (t : ℕ). signed64 (u64 (sign_extend32 x * t))) low
        ∙ negative x y (ground arith) hx (ground arith)
        ∙ rw (nx, py) refl
    | inr ny ↦ negatives x y (ground arith) hx (ground arith) hy ∙ rw (nx, ny) refl
  ]
]

product_lt : (x y : ℕ) → x < 2 ^ 32 → y < 2 ^ 32 → x * y < 2 ^ 64
product_lt x y hx hy = grind arith

long_product-lt :
    (signed : Bool) (x y : ℕ) → x < 2 ^ 32 → y < 2 ^ 32 → long_product signed x y < 2 ^ 64
unfolding long_product
long_product-lt true x y hx hy = omega arith
long_product-lt false x y hx hy = product_lt x y hx hy

-- The pair of registers that a long multiplication writes, as one number.
abbrev pub long_reg : ℕ → Cpu → ℕ
long_reg op c = c.r (field 16 4 op) * 2 ^ 32 + c.r (field 12 4 op)

module _ (op : ℕ) (c : Cpu) (pair : field 16 4 op ≢ field 12 4 op) where
  abbrev factors : ℕ
  factors = long_product (test_bit 22 op) (c.r (low_bits 4 op)) (c.r (field 8 4 op))

  written :
      (flags : Bool) (result : ℕ)
      → result < 2 ^ 64
      → long_reg op (write_long (field 16 4 op) (field 12 4 op) flags result c) ≡ result
  unfolding write_long
  written true result h = ground arith
  written false result h = ground arith

  long_multiply_plain :
      test_bit 21 op ≡ false → factors < 2 ^ 64 → long_reg op (arm_multiply_long op c).1 ≡ factors
  unfolding arm_multiply_long
  long_multiply_plain plain small = rw plain (written (test_bit 20 op) factors small)

  -- UMLAL and SMLAL add the product to the number that the pair of registers held, on 64 bits.
  pub long_multiply_accumulate :
      test_bit 21 op ≡ true
      → c.r (field 12 4 op) < 2 ^ 32
      → long_reg op (arm_multiply_long op c).1 ≡ u64 (factors + long_reg op c)
  unfolding arm_multiply_long
  long_multiply_accumulate acc lo =
      rw (acc, bit_or-fields 32 (c.r (field 16 4 op)) (c.r (field 12 4 op)) lo)
        (written (test_bit 20 op) (u64 (factors + long_reg op c)) (omega arith))

  -- SMULL leaves the product of the two signed numbers in the pair of registers.
  pub arm_multiply_long-signed :
      test_bit 22 op ≡ true
      → test_bit 21 op ≡ false
      → ((i : ℕ) → c.r i < 2 ^ 32)
      → signed64 (long_reg op (arm_multiply_long op c).1)
        ≡ signed32 (c.r (low_bits 4 op)) *ℤ signed32 (c.r (field 8 4 op))
  arm_multiply_long-signed signed plain words =
      ap signed64 (
        long_multiply_plain plain (long_product-lt (test_bit 22 op) _ _ (words _) (words _))
        ∙ ap (λ (s : Bool). long_product s (c.r (low_bits 4 op)) (c.r (field 8 4 op))) signed)
      ∙ long_product-signed (c.r (low_bits 4 op)) (c.r (field 8 4 op)) (words _) (words _)
