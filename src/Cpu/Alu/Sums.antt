-- ===== src/Cpu/Alu/Sums.antt =====
-- What the flags of an addition and a subtraction say.
use gba_eval.Base.{
  ℕ, zero, suc, ◌+◌, ◌*◌, ◌/◌, ◌^◌, ◌<◌, ◌≡◌, refl, ◌↔◌, ◌==◌, ◌!=◌, ◌&&◌, leb, false, arith,
  bit_and, bit_xor, bit_and-shr, bit_xor-shr, of_bool, u32, sub32, not32, pos, ◌+ℤ◌, ◌-ℤ◌, signed32,
}
use gba_eval.Cpu.Alu.{add_flags, sub_flags}

-- The overflow of three sign digits.
sign_table :
    (x y z : ℕ)
    → x < 2
    → y < 2
    → z < 2
    → (bit_and (bit_xor x z) (bit_xor y z) != 0) ≡ ((x == y) && (x != z))
sign_table zero zero zero p q r = refl
sign_table zero zero (suc zero) p q r = refl
sign_table zero (suc zero) zero p q r = refl
sign_table zero (suc zero) (suc zero) p q r = refl
sign_table (suc zero) zero zero p q r = refl
sign_table (suc zero) zero (suc zero) p q r = refl
sign_table (suc zero) (suc zero) zero p q r = refl
sign_table (suc zero) (suc zero) (suc zero) p q r = refl
sign_table (suc (suc x)) y z p q r = absurd (omega arith)
sign_table x (suc (suc y)) z p q r = absurd (omega arith)
sign_table x y (suc (suc z)) p q r = absurd (omega arith)

pub overflow_signs :
    (a b c : ℕ)
    → a < 2 ^ 32
    → b < 2 ^ 32
    → (add_flags a b c).2 ≡ ((a / 2 ^ 31 == b / 2 ^ 31) && (a / 2 ^ 31 != u32 (a + b + c) / 2 ^ 31))
unfolding add_flags
overflow_signs a b c p q =
    let res = u32 (a + b + c) in
    rw (bit_and-shr 31 (bit_xor a res) (bit_xor b res), bit_xor-shr 31 a res, bit_xor-shr 31 b res)
      (sign_table (a / 2 ^ 31) (b / 2 ^ 31) (res / 2 ^ 31) (omega arith) (omega arith)
        (omega arith))

-- Of two words and a carry, `add_flags` gives the exact unsigned sum as a word and a carry; the
-- overflow flag is clear exactly when the word is also the exact signed sum.
pub add_flags_lem :
    (a b c : ℕ)
    → a < 2 ^ 32
    → b < 2 ^ 32
    → c < 2
    → let (r, carry, overflow) = add_flags a b c in
      (r + of_bool carry * 2 ^ 32 ≡ a + b + c)
      × ((overflow ≡ false) ↔ (signed32 r ≡ signed32 a +ℤ signed32 b +ℤ pos c))
add_flags_lem a b c p q r = (unfold add_flags in ground arith, rw (overflow_signs a b c p q) signs)
  where
    signs :
        (((a / 2 ^ 31 == b / 2 ^ 31) && (a / 2 ^ 31 != u32 (a + b + c) / 2 ^ 31)) ≡ false)
        ↔ (signed32 (add_flags a b c).0 ≡ signed32 a +ℤ signed32 b +ℤ pos c)
    signs = unfold add_flags in ground arith

-- Of two words, `sub_flags` with a carry gives the wrapped difference; its carry is set exactly
-- when nothing is borrowed, and its overflow is clear exactly when the word is the exact signed
-- difference.
pub sub_flags_lem :
    (a b : ℕ)
    → a < 2 ^ 32
    → b < 2 ^ 32
    → let (r, carry, overflow) = sub_flags a b 1 in
      (r ≡ sub32 a b)
      × (carry ≡ leb b a)
      × ((overflow ≡ false) ↔ (signed32 r ≡ signed32 a -ℤ signed32 b))
sub_flags_lem a b p q = (
  unfold sub_flags add_flags in ground arith,
  unfold sub_flags add_flags in ground arith,
  unfold sub_flags in rw (overflow_signs a (not32 b) 1 p (omega arith)) signs,
)
  where
    signs :
        (((a / 2 ^ 31 == not32 b / 2 ^ 31) && (a / 2 ^ 31 != u32 (a + not32 b + 1) / 2 ^ 31))
          ≡ false)
        ↔ (signed32 (add_flags a (not32 b) 1).0 ≡ signed32 a -ℤ signed32 b)
    signs = unfold add_flags in ground arith
