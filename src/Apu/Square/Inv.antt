-- ===== src/Apu/Square/Inv.antt =====
-- The invariant of a square channel: its period is positive, so that its loop ends, and its
-- output is a 4-bit level.
use gba_eval.Apu.ClockLoop.{clock_loop_closed, left_over, runs_out, left_over-pos}
use native.Mathlib.Nat.{div-le_self, mul-le-mul}
use gba_eval.Base.{
  ℕ, zero, suc, ◌/◌, ◌%◌, ◌^◌, ◌<◌, ◌≤◌, ◌≡◌, refl, ◌&&◌, leb, Bool, true, arith, ap, ap₂, ◌∙◌, sym,
  Bool-cases, inl, inr, Option, some, none, iterate, bit_and, bit_or, test_bit, ◌≢◌, bit_or-shr,
  bit_and-shr, get_or, List, [], ◌∷◌, subst,
}
use gba_eval.Apu.Square.{
  SquareChannel, square_new, square_step, square_output, square_length_tick, square_envelope_tick,
  calc_sweep, sweep_tick, trigger, trigger_mutes, write_nr10, write_nr11_12, write_nr13_14,
  square_period, next_duty, duty_table,
}

pub record IsSquare (c : SquareChannel) : Type 0 where
  pub frequency_in : c.frequency ≤ 2047
  pub shadow_in : c.sweep_shadow ≤ 2047
  pub duty_in : c.duty < 4
  pub pos_in : c.duty_pos < 8
  pub initial_in : c.env_initial ≤ 15
  pub volume_in : c.env_volume ≤ 15
  pub length_in : c.length_counter ≤ 64
  pub runs : c.active ≡ true → 1 ≤ c.timer

-- The frequency that a write without a trigger leaves is still 11 bits wide.
merged-le : (f val : ℕ) → f ≤ 2047 → bit_or (bit_and f 0x700) (val % 2 ^ 11) ≤ 2047
merged-le f val h =
    let top : bit_or (bit_and f 0x700) (val % 2 ^ 11) / 2 ^ 11
        ≡ bit_or (bit_and (f / 2 ^ 11) (0x700 / 2 ^ 11)) (val % 2 ^ 11 / 2 ^ 11) =
      bit_or-shr 11 (bit_and f 0x700) (val % 2 ^ 11)
      ∙ ap (λ (t : ℕ). bit_or t (val % 2 ^ 11 / 2 ^ 11)) (bit_and-shr 11 f 0x700) in
    let f₀ : f / 2 ^ 11 ≡ 0 = omega arith in
    let v₀ : val % 2 ^ 11 / 2 ^ 11 ≡ 0 = omega arith in
    let zero_top : bit_or (bit_and f 0x700) (val % 2 ^ 11) / 2 ^ 11 ≡ 0 =
      top ∙ ap₂ (λ (x y : ℕ). bit_or (bit_and x (0x700 / 2 ^ 11)) y) f₀ v₀ in
    omega (arith, zero_top)

duty-lt : (n p : ℕ) → p < 8 → iterate n next_duty p < 8
duty-lt zero p h = h
duty-lt (suc n) p h = omega arith

pub step-IsSquare :
    (cycles : ℕ) (c : SquareChannel)
    → IsSquare c
    → (d : SquareChannel) × (square_step cycles c ≡ some d) × IsSquare d
unfolding square_step
step-IsSquare cycles c v = elim (Bool-cases c.active) [
  | inr off ↦ (c, rw off refl, v)
  | inl on ↦
      let p : 1 ≤ square_period c = omega (arith, v.frequency_in) in
      let closed =
        clock_loop_closed next_duty (suc cycles) (square_period c) cycles c.timer c.duty_pos p
          (v.runs on) (omega arith) in
      (
        record c {
          timer = left_over (square_period c) cycles c.timer;
          duty_pos = iterate (runs_out (square_period c) cycles c.timer) next_duty c.duty_pos;
        },
        simp (on, closed) refl,
        record {
          frequency_in = v.frequency_in;
          shadow_in = v.shadow_in;
          duty_in = v.duty_in;
          pos_in = duty-lt (runs_out (square_period c) cycles c.timer) c.duty_pos v.pos_in;
          initial_in = v.initial_in;
          volume_in = v.volume_in;
          length_in = v.length_in;
          runs = λ e. left_over-pos (square_period c) cycles c.timer p (v.runs on);
        },
      )
]

length-IsSquare : (c : SquareChannel) → IsSquare c → IsSquare (square_length_tick c)
unfolding square_length_tick
length-IsSquare c v = ground arith

envelope-IsSquare : (c : SquareChannel) → IsSquare c → IsSquare (square_envelope_tick c)
unfolding square_envelope_tick
envelope-IsSquare c v = ground arith

calc_sweep-le : (c : SquareChannel) → c.sweep_shadow ≤ 2047 → calc_sweep c ≤ 4094
unfolding calc_sweep
calc_sweep-le c h = ground (arith, div-le_self c.sweep_shadow (2 ^ c.sweep_shift))

sweep-IsSquare : (c : SquareChannel) → IsSquare c → IsSquare (sweep_tick c)
unfolding sweep_tick
sweep-IsSquare c v = ground arith

trigger-IsSquare : (c : SquareChannel) → IsSquare c → IsSquare (trigger c)
unfolding trigger trigger_mutes
trigger-IsSquare c v = ground arith

write_nr10-IsSquare : (val : ℕ) (c : SquareChannel) → IsSquare c → IsSquare (write_nr10 val c)
unfolding write_nr10
write_nr10-IsSquare val c v = ground arith

write_nr11_12-IsSquare : (val : ℕ) (c : SquareChannel) → IsSquare c → IsSquare (write_nr11_12 val c)
unfolding write_nr11_12
write_nr11_12-IsSquare val c v = ground arith

write_nr13_14-IsSquare : (val : ℕ) (c : SquareChannel) → IsSquare c → IsSquare (write_nr13_14 val c)
unfolding write_nr13_14
write_nr13_14-IsSquare val c v = elim (Bool-cases (test_bit 15 val)) [
  | inl starts ↦ rw starts (
      trigger-IsSquare _ record {
        frequency_in = omega arith;
        shadow_in = v.shadow_in;
        duty_in = v.duty_in;
        pos_in = v.pos_in;
        initial_in = v.initial_in;
        volume_in = v.volume_in;
        length_in = v.length_in;
        runs = v.runs;
      })
  | inr plays ↦ rw plays record {
    frequency_in = merged-le c.frequency val v.frequency_in;
    shadow_in = v.shadow_in;
    duty_in = v.duty_in;
    pos_in = v.pos_in;
    initial_in = v.initial_in;
    volume_in = v.volume_in;
    length_in = v.length_in;
    runs = v.runs;
  }
]

-- What the sound unit does to a square channel.
pub data Step (c : SquareChannel) : SquareChannel → Type 0 where
  runs_on : (cycles : ℕ) (d : SquareChannel) → square_step cycles c ≡ some d → Step c d
  length_ticks : Step c (square_length_tick c)
  envelope_ticks : Step c (square_envelope_tick c)
  sweeps : Step c (sweep_tick c)
  sets_sweep : (val : ℕ) → Step c (write_nr10 val c)
  sets_envelope : (val : ℕ) → Step c (write_nr11_12 val c)
  sets_frequency : (val : ℕ) → Step c (write_nr13_14 val c)
  powers_off : Step c square_new

pub data Reach : SquareChannel → Type 0 where
  power_on : Reach square_new
  next : {c d : SquareChannel} → Reach c → Step c d → Reach d

new-IsSquare : IsSquare square_new
new-IsSquare = ground arith

Step-IsSquare : {c d : SquareChannel} → Step c d → IsSquare c → IsSquare d
Step-IsSquare {c} (runs_on cycles d e) v =
    let (d', e', v') = step-IsSquare cycles c v in
    let same : d' ≡ d =
      ap (λ (o : Option SquareChannel). elim o [ none ↦ c | some x ↦ x ]) (sym e' ∙ e) in
    subst IsSquare same v'
Step-IsSquare {c} length_ticks v = length-IsSquare c v
Step-IsSquare {c} envelope_ticks v = envelope-IsSquare c v
Step-IsSquare {c} sweeps v = sweep-IsSquare c v
Step-IsSquare {c} (sets_sweep val) v = write_nr10-IsSquare val c v
Step-IsSquare {c} (sets_envelope val) v = write_nr11_12-IsSquare val c v
Step-IsSquare {c} (sets_frequency val) v = write_nr13_14-IsSquare val c v
Step-IsSquare powers_off v = new-IsSquare

Reach-IsSquare : {c : SquareChannel} → Reach c → IsSquare c
Reach-IsSquare power_on = new-IsSquare
Reach-IsSquare (next r s) = Step-IsSquare s (Reach-IsSquare r)

are_bits : List ℕ → Bool
are_bits [] = true
are_bits (x ∷ xs) = leb x 1 && are_bits xs

bit-le : (xs : List ℕ) (p : ℕ) → are_bits xs ≡ true → get_or xs p 0 ≤ 1
unfolding are_bits
bit-le [] p h = omega arith
bit-le (x ∷ xs) zero h = ground arith
bit-le (x ∷ xs) (suc p) h = bit-le xs p (ground arith)

duty-le : (d p : ℕ) → get_or (get_or duty_table d []) p 0 ≤ 1
unfolding duty_table are_bits
duty-le zero p = bit-le (0 ∷ 0 ∷ 0 ∷ 0 ∷ 0 ∷ 0 ∷ 0 ∷ 1 ∷ []) p refl
duty-le (suc zero) p = bit-le (1 ∷ 0 ∷ 0 ∷ 0 ∷ 0 ∷ 0 ∷ 0 ∷ 1 ∷ []) p refl
duty-le (suc (suc zero)) p = bit-le (1 ∷ 0 ∷ 0 ∷ 0 ∷ 0 ∷ 1 ∷ 1 ∷ 1 ∷ []) p refl
duty-le (suc (suc (suc zero))) p = bit-le (0 ∷ 1 ∷ 1 ∷ 1 ∷ 1 ∷ 1 ∷ 1 ∷ 0 ∷ []) p refl
duty-le (suc (suc (suc (suc d)))) p = omega arith

output-le : (c : SquareChannel) → IsSquare c → square_output c ≤ 15
unfolding square_output
output-le c v = ground (arith, mul-le-mul {n₂ = 1} (duty-le c.duty c.duty_pos) v.volume_in)

-- Whatever follows power-on, the loop of a square channel ends for any number of cycles, and its
-- level stays within 4 bits.
pub square_step-terminates :
    {c : SquareChannel} (cycles : ℕ)
    → Reach c
    → (square_step cycles c ≢ none) × (square_output c ≤ 15)
square_step-terminates {c} cycles r =
    let v = Reach-IsSquare r in
    let (d, e, v') = step-IsSquare cycles c v in (λ n. cc, output-le c v)
