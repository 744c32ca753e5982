-- ===== src/Base/Words.antt =====
-- Machine words as native numbers below `2 ^ w`. A shift right is a division, `x & (2 ^ k - 1)` a
-- remainder, and a test `x & (1 << k) != 0` reads one binary digit.
use Prim.Native.Nat.{ℕ, ◌+◌, ◌-◌, ◌*◌, ◌/◌, ◌%◌, ◌^◌}
use mathlib.Core.Bool.{Bool, true, false}
use gba_eval.Base.Tests.{◌==◌}

abbrev pub u8 : ℕ → ℕ
u8 n = n % 2 ^ 8

abbrev pub u16 : ℕ → ℕ
u16 n = n % 2 ^ 16

abbrev pub u32 : ℕ → ℕ
u32 n = n % 2 ^ 32

abbrev pub u64 : ℕ → ℕ
u64 n = n % 2 ^ 64

-- `x >> k`
infixl 72 ◌>>>◌ ◌<<<◌
abbrev pub ◌>>>◌ : ℕ → ℕ → ℕ
x >>> k = x / 2 ^ k

-- `x << k` before it is cut to its width
abbrev pub ◌<<<◌ : ℕ → ℕ → ℕ
x <<< k = x * 2 ^ k

-- `x & (2 ^ k - 1)`
abbrev pub low_bits : ℕ → ℕ → ℕ
low_bits k x = x % 2 ^ k

-- `x & !(2 ^ k - 1)`
abbrev pub high_bits : ℕ → ℕ → ℕ
high_bits k x = x / 2 ^ k * 2 ^ k

-- `(x >> k) & (2 ^ w - 1)`
abbrev pub field : ℕ → ℕ → ℕ → ℕ
field k w x = x / 2 ^ k % 2 ^ w

-- `x & (1 << k) != 0`
abbrev pub test_bit : ℕ → ℕ → Bool
test_bit k x = (x / 2 ^ k % 2) == 1

-- `b as u32`
abbrev pub of_bool : Bool → ℕ
of_bool true = 1
of_bool false = 0

-- `x | (1 << k)`, `x & !(1 << k)`, and one of the two
abbrev pub set_bit : ℕ → ℕ → ℕ
set_bit k x = x / 2 ^ (k + 1) * 2 ^ (k + 1) + 2 ^ k + x % 2 ^ k

abbrev pub clear_bit : ℕ → ℕ → ℕ
clear_bit k x = x / 2 ^ (k + 1) * 2 ^ (k + 1) + x % 2 ^ k

abbrev pub put_bit : ℕ → Bool → ℕ → ℕ
put_bit k true x = set_bit k x
put_bit k false x = clear_bit k x

-- `!x` on 32 bits and 16 bits
abbrev pub not32 : ℕ → ℕ
not32 x = 2 ^ 32 - 1 - x

abbrev pub not16 : ℕ → ℕ
not16 x = 2 ^ 16 - 1 - x

-- `wrapping_add` and `wrapping_sub` on `u32`
abbrev pub add32 : ℕ → ℕ → ℕ
add32 a b = u32 (a + b)

abbrev pub sub32 : ℕ → ℕ → ℕ
sub32 a b = u32 (a + 2 ^ 32 - b)
