-- ===== src/Base/BitLaws.antt =====
-- The native bit operations at variables: a law for the lowest digit, and from it one for any
-- digit, for masks and for disjoint fields.
use Prim.Native.Nat.{
  ℕ, zero, suc, ◌+◌, ◌*◌, ◌/◌, ◌%◌, ◌≤◌, ◌<◌, min, max, digits, bit_and, bit_or, bit_xor, bitwise,
  differ, bit_and-bitwise, bit_or-bitwise, bit_xor-bitwise,
}
use mathlib.Core.Path.{◌≡◌, refl, ap, ◌∙◌}
use native.Mathlib.Omega.{arith}

module _ (rest : ℕ → ℕ) (op : ℕ → ℕ → ℕ) where
  -- Fuel beyond the first operand changes nothing.
  spare_fuel : (x y k l : ℕ) → x ≤ l → x ≤ k → digits rest op l x y ≡ digits rest op k x y
  spare_fuel zero y zero zero in_l in_k = refl
  spare_fuel zero y (suc k) zero in_l in_k = refl
  spare_fuel zero y zero (suc l) in_l in_k = refl
  spare_fuel zero y (suc k) (suc l) in_l in_k = refl
  spare_fuel (suc x) y k zero in_l in_k = absurd (omega arith)
  spare_fuel (suc x) y zero (suc l) in_l in_k = absurd (omega arith)
  spare_fuel (suc x) y (suc k) (suc l) in_l in_k =
      let halves = spare_fuel (suc x / 2) (y / 2) k l (omega arith) (omega arith) in
      omega (arith, halves)

  lowest_digit :
      (x y : ℕ)
      → bitwise rest op (suc x) y ≡ bitwise rest op (suc x / 2) (y / 2) * 2 + op (suc x % 2) (y % 2)
  lowest_digit x y =
      let halves = spare_fuel (suc x / 2) (y / 2) (suc x / 2) x (omega arith) (omega arith) in
      omega (arith, halves)

pub bit_and_step : (x y : ℕ) → bit_and x y ≡ bit_and (x / 2) (y / 2) * 2 + min (x % 2) (y % 2)
bit_and_step (suc x) y = simp bit_and-bitwise (lowest_digit (λ y. 0) min x y)
bit_and_step zero y = simp bit_and-bitwise (omega arith)

pub bit_or_step : (x y : ℕ) → bit_or x y ≡ bit_or (x / 2) (y / 2) * 2 + max (x % 2) (y % 2)
bit_or_step (suc x) y = simp bit_or-bitwise (lowest_digit (λ t. t) max x y)
bit_or_step zero y = simp bit_or-bitwise (omega arith)

differ_digits : (a b : ℕ) → a < 2 → b < 2 → differ a b ≡ (a + b) % 2
differ_digits zero zero h k = refl
differ_digits zero (suc zero) h k = refl
differ_digits zero (suc (suc b)) h k = absurd (omega arith)
differ_digits (suc zero) zero h k = refl
differ_digits (suc zero) (suc zero) h k = refl
differ_digits (suc zero) (suc (suc b)) h k = absurd (omega arith)
differ_digits (suc (suc a)) b h k = absurd (omega arith)

differ-zero : (b : ℕ) → differ zero (b % 2) ≡ b % 2
differ-zero b = omega (arith, differ_digits 0 (b % 2) (omega arith) (omega arith))

pub bit_xor_step : (a b : ℕ) → bit_xor a b ≡ bit_xor (a / 2) (b / 2) * 2 + (a % 2 + b % 2) % 2
bit_xor_step zero b = simp bit_xor-bitwise (omega arith)
bit_xor_step (suc a) b = simp bit_xor-bitwise (
    lowest_digit (λ y. y) differ a b
    ∙ ap (λ (d : ℕ). bitwise (λ y. y) differ (suc a / 2) (b / 2) * 2 + d)
        (differ_digits (suc a % 2) (b % 2) (omega arith) (omega arith)))

pub bit_and-half : (a b : ℕ) → bit_and a b / 2 ≡ bit_and (a / 2) (b / 2)
bit_and-half a b = omega (arith, bit_and_step a b)

pub bit_xor-half : (a b : ℕ) → bit_xor a b / 2 ≡ bit_xor (a / 2) (b / 2)
bit_xor-half a b = omega (arith, bit_xor_step a b)

pub bit_or-half : (a b : ℕ) → bit_or a b / 2 ≡ bit_or (a / 2) (b / 2)
bit_or-half a b = omega (arith, bit_or_step a b)

pub zero-bit_or : (b : ℕ) → bit_or 0 b ≡ b
zero-bit_or b = bit_or-bitwise 0 b
