-- ===== src/Base/BitFields.antt =====
-- Shifts, masks and disjoint fields under the native bit operations.
use Prim.Native.Nat.{
  ℕ, zero, suc, ◌+◌, ◌-◌, ◌*◌, ◌/◌, ◌%◌, ◌^◌, ◌<◌, min, max, bit_and, bit_or, bit_xor,
}
use mathlib.Core.Path.{◌≡◌, refl, ap, ◌∙◌, sym}
use native.Mathlib.Nat.{pow-suc, pow-succ', one-le-pow, div-div-eq-div-mul, zero-add, suc-add}
use native.Mathlib.Omega.{arith}
use gba_eval.Base.BitLaws.{
  bit_and_step, bit_or_step, bit_xor_step, bit_and-half, bit_or-half, bit_xor-half, zero-bit_or,
}

pub div-pow-suc : (a k : ℕ) → a / 2 ^ suc k ≡ a / 2 ^ k / 2
div-pow-suc a k = ap (λ (t : ℕ). a / t) (pow-suc 2 k) ∙ sym (div-div-eq-div-mul a (2 ^ k) 2)

module _ (op : ℕ → ℕ → ℕ) (half : (a b : ℕ) → op a b / 2 ≡ op (a / 2) (b / 2)) where
  op-shr : (k a b : ℕ) → op a b / 2 ^ k ≡ op (a / 2 ^ k) (b / 2 ^ k)
  op-shr zero a b = ap₃ (omega arith) (omega arith) (omega arith)
    where
      ap₃ :
          op a b / 2 ^ 0 ≡ op a b
          → a / 2 ^ 0 ≡ a
          → b / 2 ^ 0 ≡ b
          → op a b / 2 ^ 0 ≡ op (a / 2 ^ 0) (b / 2 ^ 0)
      ap₃ e p q = e ∙ ap (λ (t : ℕ). op t b) (sym p) ∙ ap (λ (t : ℕ). op (a / 2 ^ 0) t) (sym q)
  op-shr (suc k) a b =
      rw (div-pow-suc (op a b) k, div-pow-suc a k, div-pow-suc b k, op-shr k a b)
        (half (a / 2 ^ k) (b / 2 ^ k))

pub bit_and-shr : (k a b : ℕ) → bit_and a b / 2 ^ k ≡ bit_and (a / 2 ^ k) (b / 2 ^ k)
bit_and-shr = op-shr bit_and bit_and-half

pub bit_or-shr : (k a b : ℕ) → bit_or a b / 2 ^ k ≡ bit_or (a / 2 ^ k) (b / 2 ^ k)
bit_or-shr = op-shr bit_or bit_or-half

pub bit_xor-shr : (k a b : ℕ) → bit_xor a b / 2 ^ k ≡ bit_xor (a / 2 ^ k) (b / 2 ^ k)
bit_xor-shr = op-shr bit_xor bit_xor-half

-- One digit of each operation.
pub bit_and-digit : (k a b : ℕ) → bit_and a b / 2 ^ k % 2 ≡ min (a / 2 ^ k % 2) (b / 2 ^ k % 2)
bit_and-digit k a b = omega (arith, bit_and-shr k a b, bit_and_step (a / 2 ^ k) (b / 2 ^ k))

pub bit_or-digit : (k a b : ℕ) → bit_or a b / 2 ^ k % 2 ≡ max (a / 2 ^ k % 2) (b / 2 ^ k % 2)
bit_or-digit k a b = omega (arith, bit_or-shr k a b, bit_or_step (a / 2 ^ k) (b / 2 ^ k))

pub bit_xor-digit : (k a b : ℕ) → bit_xor a b / 2 ^ k % 2 ≡ (a / 2 ^ k % 2 + b / 2 ^ k % 2) % 2
bit_xor-digit k a b = omega (arith, bit_xor-shr k a b, bit_xor_step (a / 2 ^ k) (b / 2 ^ k))

-- A zero operand, by recursion on a bound of the other.
and-zero_below : (n a : ℕ) → a < n → bit_and a 0 ≡ 0
and-zero_below zero a h = absurd (omega arith)
and-zero_below (suc n) zero h = refl
and-zero_below (suc n) (suc a) h =
    omega (arith, bit_and_step (suc a) 0, and-zero_below n (suc a / 2) (omega arith))

pub bit_and-zero : (a : ℕ) → bit_and a 0 ≡ 0
bit_and-zero a = and-zero_below (suc a) a (omega arith)

or-zero_below : (n a : ℕ) → a < n → bit_or a 0 ≡ a
or-zero_below zero a h = absurd (omega arith)
or-zero_below (suc n) zero h = refl
or-zero_below (suc n) (suc a) h =
    omega (arith, bit_or_step (suc a) 0, or-zero_below n (suc a / 2) (omega arith))

pub bit_or-zero : (a : ℕ) → bit_or a 0 ≡ a
bit_or-zero a = or-zero_below (suc a) a (omega arith)

pub mul-pow-suc : (q k : ℕ) → q * 2 ^ suc k ≡ 2 * (q * 2 ^ k)
mul-pow-suc q k = omega (arith, ap (λ (t : ℕ). q * t) (pow-suc 2 k))

low_field : (k q r : ℕ) → r < 2 ^ k → bit_and (q * 2 ^ k + r) (2 ^ k - 1) ≡ r
low_field zero q r h = omega (arith, bit_and-zero (q * 2 ^ 0 + r))
low_field (suc k) q r h = ground (
  arith,
  bit_and_step (q * 2 ^ suc k + r) (2 ^ suc k - 1),
  mul-pow-suc q k,
  pow-suc 2 k,
  one-le-pow k 2,
  low_field k q (r / 2),
)

-- A mask of low ones is a remainder.
pub bit_and-mask : (k a : ℕ) → bit_and a (2 ^ k - 1) ≡ a % 2 ^ k
bit_and-mask k a = ground (arith, one-le-pow k 2, low_field k (a / 2 ^ k) (a % 2 ^ k))

-- A mask of high ones drops the low digits.
pub bit_and-mul_pow : (k a c : ℕ) → bit_and a (c * 2 ^ k) ≡ bit_and (a / 2 ^ k) c * 2 ^ k
bit_and-mul_pow zero a c =
    let p : a / 2 ^ 0 ≡ a = omega arith in
    let q : c * 2 ^ 0 ≡ c = omega arith in rw (p, q) (omega arith)
bit_and-mul_pow (suc k) a c = ground (
  arith,
  bit_and_step a (c * 2 ^ suc k),
  mul-pow-suc c k,
  mul-pow-suc (bit_and (a / 2 ^ suc k) c) k,
  bit_and-mul_pow k (a / 2) c,
  div-div-eq-div-mul a 2 (2 ^ k),
  pow-succ' 2 k,
)

-- Disjoint fields add up.
pub bit_or-fields : (k q r : ℕ) → r < 2 ^ k → bit_or (q * 2 ^ k) r ≡ q * 2 ^ k + r
bit_or-fields zero q r h = ground (arith, bit_or-zero q)
bit_or-fields (suc k) q r h = ground (
  arith,
  bit_or_step (q * 2 ^ suc k) r,
  mul-pow-suc q k,
  pow-suc 2 k,
  bit_or-fields k q (r / 2) (omega (arith, pow-suc 2 k)),
)

pub pow-mul-pow : (n m : ℕ) → 2 ^ n * 2 ^ m ≡ 2 ^ (n + m)
pow-mul-pow zero m = ground (arith, ap (λ (t : ℕ). 2 ^ t) (zero-add m))
pow-mul-pow (suc n) m = ground (
  arith,
  pow-suc 2 n,
  pow-mul-pow n m,
  pow-suc 2 (n + m),
  ap (λ (t : ℕ). 2 ^ t) (suc-add n m),
  mul-pow n m,
)
  where
    mul-pow : (n m : ℕ) → 2 ^ n * 2 * 2 ^ m ≡ 2 * (2 ^ n * 2 ^ m)
    mul-pow n m = omega arith

or_comm_below : (n a b : ℕ) → a < n → b < n → bit_or a b ≡ bit_or b a
or_comm_below zero a b p q = absurd (omega arith)
or_comm_below (suc n) zero b p q = zero-bit_or b ∙ sym (bit_or-zero b)
or_comm_below (suc n) (suc a) zero p q = bit_or-zero (suc a) ∙ sym (zero-bit_or (suc a))
or_comm_below (suc n) (suc a) (suc b) p q = omega (
  arith,
  bit_or_step (suc a) (suc b),
  bit_or_step (suc b) (suc a),
  or_comm_below n (suc a / 2) (suc b / 2) (omega arith) (omega arith),
)

pub bit_or_comm : (a b : ℕ) → bit_or a b ≡ bit_or b a
bit_or_comm a b = or_comm_below (suc (a + b)) a b (omega arith) (omega arith)
