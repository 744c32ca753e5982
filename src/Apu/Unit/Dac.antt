-- ===== src/Apu/Unit/Dac.antt =====
-- The range of the converter.
use gba_eval.Base.{
  ℕ, zero, suc, ◌*◌, ◌/◌, ◌%◌, ◌^◌, ◌<◌, ◌≤◌, ◌≡◌, true, arith, ℤ, pos, negsuc, leb_ℤ, ◌-ℤ◌, ◌+ℤ◌,
  shr_ℤ, scale_ℤ, clamp_ℤ, field,
}
use gba_eval.Apu.Unit.{dac}

clamp-le : (m : ℕ) (z : ℤ) → clamp_ℤ m z ≤ m
clamp-le m (pos a) = ground arith
clamp-le m (negsuc a) = omega arith

-- The gain at each of the four resolutions.
gain-range :
    (r q bias : ℕ)
    → r < 4
    → q ≤ 0x3ff / 2 ^ r * 2 ^ 8
    → bias ≤ 0x3ff / 2 ^ r * 2 ^ 8
    → let out = shr_ℤ 8 (scale_ℤ (32 * 2 ^ r) (pos q -ℤ pos bias)) in
      (leb_ℤ (negsuc 32735) out ≡ true) × (leb_ℤ out (pos 32736) ≡ true)
gain-range zero q bias h k l = ground arith
gain-range (suc zero) q bias h k l = ground arith
gain-range (suc (suc zero)) q bias h k l = ground arith
gain-range (suc (suc (suc zero))) q bias h k l = ground arith
gain-range (suc (suc (suc (suc r)))) q bias h k l = absurd (omega arith)

bias-le : (r b : ℕ) → r < 4 → b < 2 ^ 10 → b / 2 * 2 / 2 ^ r * 2 ^ 8 ≤ 0x3ff / 2 ^ r * 2 ^ 8
bias-le zero b h k = omega arith
bias-le (suc zero) b h k = omega arith
bias-le (suc (suc zero)) b h k = omega arith
bias-le (suc (suc (suc zero))) b h k = omega arith
bias-le (suc (suc (suc (suc r)))) b h k = absurd (omega arith)

-- Whatever the bias register and the mix, the converter's output is between -32736 and 32736, so
-- that it fits 16 bits.
pub dac-range :
    (soundbias : ℕ) (level : ℤ)
    → (leb_ℤ (negsuc 32735) (dac soundbias level) ≡ true)
      × (leb_ℤ (dac soundbias level) (pos 32736) ≡ true)
unfolding dac
dac-range soundbias level =
    let r = field 14 2 soundbias in
    let bias = soundbias % 2 ^ 10 / 2 * 2 / 2 ^ r * 2 ^ 8 in
    gain-range r (clamp_ℤ (0x3ff / 2 ^ r * 2 ^ 8) (shr_ℤ r level +ℤ pos bias)) bias (omega arith)
      (clamp-le _ _) (bias-le r (soundbias % 2 ^ 10) (omega arith) (omega arith))
