-- ===== src/Apu/Square/Registers.antt =====
-- The registers of a square channel.
use gba_eval.Base.{
  ℕ, ◌+◌, ◌*◌, ◌/◌, ◌%◌, ◌^◌, ◌≡◌, false, arith, ap, ◌∙◌, test_bit, of_bool, bit_or, bit_and,
  bit_or-fields, bit_or-shr, bit_and-shr, bit_and-mask,
}
use gba_eval.Apu.Square.{SquareChannel, read_nr10, write_nr10, write_nr13_14}

bit_digit : (k v : ℕ) → of_bool (test_bit k v) ≡ v / 2 ^ k % 2
bit_digit k v = ground arith

-- The sweep register reads back the seven bits that were written.
read_nr10-write_nr10 : (val : ℕ) (c : SquareChannel) → read_nr10 (write_nr10 val c) ≡ val % 2 ^ 7
unfolding read_nr10 write_nr10
read_nr10-write_nr10 val c =
    let digit : of_bool (test_bit 3 val) ≡ val / 2 ^ 3 % 2 = bit_digit 3 val in
    ap (λ (t : ℕ). bit_or (bit_or (val / 2 ^ 4 % 2 ^ 3 * 2 ^ 4) (t * 2 ^ 3)) (val % 2 ^ 3)) digit
    ∙ ap (λ (t : ℕ). bit_or t (val % 2 ^ 3))
        (bit_or-fields 4 (val / 2 ^ 4 % 2 ^ 3) (val / 2 ^ 3 % 2 * 2 ^ 3) (omega arith) ∙ outer)
    ∙ bit_or-fields 3 (val / 2 ^ 4 % 2 ^ 3 * 2 + val / 2 ^ 3 % 2) (val % 2 ^ 3) (omega arith)
    ∙ omega arith
  where
    outer :
        val / 2 ^ 4 % 2 ^ 3 * 2 ^ 4 + val / 2 ^ 3 % 2 * 2 ^ 3
        ≡ (val / 2 ^ 4 % 2 ^ 3 * 2 + val / 2 ^ 3 % 2) * 2 ^ 3
    outer = omega arith

-- A write of the frequency register that does not restart the channel merges the three high bits
-- of the new frequency into the old ones, so that it never clears one of them.
pub write_nr13_14-merges :
    (val : ℕ) (c : SquareChannel)
    → test_bit 15 val ≡ false
    → (write_nr13_14 val c).frequency / 2 ^ 8
      ≡ bit_or (c.frequency / 2 ^ 8 % 2 ^ 3) (val / 2 ^ 8 % 2 ^ 3)
unfolding write_nr13_14
write_nr13_14-merges val c h = rw h (
    bit_or-shr 8 (bit_and c.frequency 0x700) (val % 2 ^ 11)
    ∙ ap (λ (t : ℕ). bit_or t (val % 2 ^ 11 / 2 ^ 8))
        (bit_and-shr 8 c.frequency 0x700 ∙ bit_and-mask 3 (c.frequency / 2 ^ 8))
    ∙ ap (λ (t : ℕ). bit_or (c.frequency / 2 ^ 8 % 2 ^ 3) t) high)
  where
    high : val % 2 ^ 11 / 2 ^ 8 ≡ val / 2 ^ 8 % 2 ^ 3
    high = omega arith
