-- ===== src/Apu/Noise/Shifts.antt =====
-- The invariant of the noise channel: its period is positive, so that its loop ends.
use gba_eval.Apu.ClockLoop.{clock_loop_closed, left_over, runs_out, left_over-pos}
use native.Mathlib.Nat.{mul-le-mul, one-le-pow, pow-le-pow_right}
use gba_eval.Base.{
  ℕ, suc, ◌-◌, ◌*◌, ◌^◌, ◌<◌, ◌≤◌, ◌≡◌, refl, ◌==◌, true, arith, ap, ◌∙◌, sym, Bool-cases, inl, inr,
  u32, low_bits, Option, some, none, iterate, test_bit, ◌≢◌, subst,
}
use gba_eval.Apu.Noise.{
  NoiseChannel, noise_new, noise_step, noise_output, noise_length_tick, noise_envelope_tick,
  noise_period, next_lfsr, write_nr41_42, write_nr43_44, noise_trigger,
}

pub record IsNoise (c : NoiseChannel) : Type 0 where
  pub divisor_in : c.divisor_code < 8
  pub shift_in : c.clock_shift < 16
  pub initial_in : c.env_initial ≤ 15
  pub volume_in : c.env_volume ≤ 15
  pub length_in : c.length_counter ≤ 64
  pub runs : c.active ≡ true → 1 ≤ c.timer

scaled : (b s : ℕ) → 32 ≤ b → b ≤ 448 → s < 16 → 32 ≤ u32 (b * 2 ^ s)
scaled b s h k l =
    let low : 32 * 1 ≤ b * 2 ^ s = mul-le-mul h (one-le-pow s 2 (omega arith)) in
    let high : b * 2 ^ s ≤ 448 * 2 ^ 15 =
      mul-le-mul k (pow-le-pow_right (omega arith) {j = 15} (omega arith)) in
    omega (arith, low, high)

-- The period fits its word, and is positive.
period-pos : (c : NoiseChannel) → c.divisor_code < 8 → c.clock_shift < 16 → 32 ≤ noise_period c
unfolding noise_period
period-pos c h k = elim (Bool-cases (c.divisor_code == 0)) [
  | inl e ↦ rw e (scaled 32 c.clock_shift (omega arith) (omega arith) k)
  | inr e ↦ rw e (scaled (c.divisor_code * 64) c.clock_shift (ground arith) (omega arith) k)
]

pub step-IsNoise :
    (cycles : ℕ) (c : NoiseChannel)
    → IsNoise c
    → (d : NoiseChannel) × (noise_step cycles c ≡ some d) × IsNoise d
unfolding noise_step
step-IsNoise cycles c v = elim (Bool-cases c.active) [
  | inr off ↦ (c, rw off refl, v)
  | inl on ↦
      let p : 1 ≤ noise_period c = omega (arith, period-pos c v.divisor_in v.shift_in) in
      let closed =
        clock_loop_closed (next_lfsr c.width_mode) (suc cycles) (noise_period c) cycles c.timer
          c.lfsr p (v.runs on) (omega arith) in
      (
        record c {
          timer = left_over (noise_period c) cycles c.timer;
          lfsr = iterate (runs_out (noise_period c) cycles c.timer) (next_lfsr c.width_mode) c.lfsr;
        },
        simp (on, closed) refl,
        record {
          divisor_in = v.divisor_in;
          shift_in = v.shift_in;
          initial_in = v.initial_in;
          volume_in = v.volume_in;
          length_in = v.length_in;
          runs = λ e. left_over-pos (noise_period c) cycles c.timer p (v.runs on);
        },
      )
]

length-IsNoise : (c : NoiseChannel) → IsNoise c → IsNoise (noise_length_tick c)
unfolding noise_length_tick
length-IsNoise c v = ground arith

envelope-IsNoise : (c : NoiseChannel) → IsNoise c → IsNoise (noise_envelope_tick c)
unfolding noise_envelope_tick
envelope-IsNoise c v = ground arith

envelope_write-IsNoise : (val : ℕ) (c : NoiseChannel) → IsNoise c → IsNoise (write_nr41_42 val c)
unfolding write_nr41_42
envelope_write-IsNoise val c v = ground arith

trigger-IsNoise : (c : NoiseChannel) → IsNoise c → IsNoise (noise_trigger c)
unfolding noise_trigger
trigger-IsNoise c v = ground (arith, period-pos c v.divisor_in v.shift_in)

control_write-IsNoise : (val : ℕ) (c : NoiseChannel) → IsNoise c → IsNoise (write_nr43_44 val c)
unfolding write_nr43_44
control_write-IsNoise val c v = elim (Bool-cases (test_bit 15 val)) [
  | inl starts ↦ rw starts (trigger-IsNoise _ (ground arith))
  | inr plays ↦ rw plays (ground arith)
]

-- What the sound unit does to the noise channel.
pub data Step (c : NoiseChannel) : NoiseChannel → Type 0 where
  runs_on : (cycles : ℕ) (d : NoiseChannel) → noise_step cycles c ≡ some d → Step c d
  length_ticks : Step c (noise_length_tick c)
  envelope_ticks : Step c (noise_envelope_tick c)
  sets_envelope : (val : ℕ) → Step c (write_nr41_42 val c)
  sets_control : (val : ℕ) → Step c (write_nr43_44 val c)
  powers_off : Step c noise_new

pub data Reach : NoiseChannel → Type 0 where
  power_on : Reach noise_new
  next : {c d : NoiseChannel} → Reach c → Step c d → Reach d

new-IsNoise : IsNoise noise_new
new-IsNoise = ground arith

Step-IsNoise : {c d : NoiseChannel} → Step c d → IsNoise c → IsNoise d
Step-IsNoise {c} (runs_on cycles d e) v =
    let (d', e', v') = step-IsNoise cycles c v in
    let same : d' ≡ d =
      ap (λ (o : Option NoiseChannel). elim o [ none ↦ c | some x ↦ x ]) (sym e' ∙ e) in
    subst IsNoise same v'
Step-IsNoise {c} length_ticks v = length-IsNoise c v
Step-IsNoise {c} envelope_ticks v = envelope-IsNoise c v
Step-IsNoise {c} (sets_envelope val) v = envelope_write-IsNoise val c v
Step-IsNoise {c} (sets_control val) v = control_write-IsNoise val c v
Step-IsNoise powers_off v = new-IsNoise

Reach-IsNoise : {c : NoiseChannel} → Reach c → IsNoise c
Reach-IsNoise power_on = new-IsNoise
Reach-IsNoise (next r s) = Step-IsNoise s (Reach-IsNoise r)

noise-le : (c : NoiseChannel) → IsNoise c → noise_output c ≤ 15
unfolding noise_output
noise-le c v =
    let bit : low_bits 1 (2 ^ 16 - 1 - c.lfsr) ≤ 1 = omega arith in
    ground (arith, mul-le-mul bit v.volume_in)

-- Whatever follows power-on, the loop of the noise channel ends for any number of cycles, and its
-- level stays within 4 bits.
pub noise_step-terminates :
    {c : NoiseChannel} (cycles : ℕ) → Reach c → (noise_step cycles c ≢ none) × (noise_output c ≤ 15)
noise_step-terminates {c} cycles r =
    let v = Reach-IsNoise r in let (d, e, v') = step-IsNoise cycles c v in (λ n. cc, noise-le c v)
