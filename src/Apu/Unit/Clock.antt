-- ===== src/Apu/Unit/Clock.antt =====
-- The clock of the samples: how many `tick_until` makes, and where it does not end.
use gba_eval.Base.{
  ℕ, zero, suc, ◌+◌, ◌-◌, ◌*◌, ◌/◌, ◌%◌, ◌^◌, ◌<◌, ◌≤◌, ◌≡◌, refl, ◌∙◌, ap, true, arith, Option,
  some, none, u32, List, [], ◌∷◌, ◌++◌, length, ℤ, le→leb, gt→leb,
}
use gba_eval.Apu.Square.Inv.{IsSquare, step-IsSquare}
use gba_eval.Apu.Square.{SquareChannel, square_step}
use gba_eval.Apu.Wave.Inv.{IsWave, step-IsWave}
use gba_eval.Apu.Wave.{WaveChannel, wave_step}
use gba_eval.Apu.Noise.Shifts.{IsNoise, step-IsNoise}
use gba_eval.Apu.Noise.{NoiseChannel, noise_step}
use gba_eval.Apu.Unit.{
  Apu, apu_enabled, step_channels, generate_sample, sample_loop, tick_until, cycles_per_sample,
}

pub record IsApu (a : Apu) : Type 0 where
  pub ch1 : IsSquare a.ch1
  pub ch2 : IsSquare a.ch2
  pub ch3 : IsWave a.ch3
  pub ch4 : IsNoise a.ch4

-- `n` samples for each ear have been added since `a`.
pub record IsLater (n : ℕ) (a b : Apu) : Type 0 where
  pub valid : IsApu b
  pub made : length b.buffer ≡ length a.buffer + 2 * n

length-append : (xs ys : List ℤ) → length (xs ++ ys) ≡ length xs + length ys
length-append [] ys = omega arith
length-append (x ∷ xs) ys = omega (arith, length-append xs ys)

all_step :
    {c₁ c₂ : SquareChannel} {c₃ : WaveChannel} {c₄ : NoiseChannel} (a : Apu)
    → square_step 512 a.ch1 ≡ some c₁
    → square_step 512 a.ch2 ≡ some c₂
    → wave_step 512 a.ch3 ≡ some c₃
    → noise_step 512 a.ch4 ≡ some c₄
    → step_channels a ≡ some (record a { ch1 = c₁; ch2 = c₂; ch3 = c₃; ch4 = c₄ })
unfolding step_channels
all_step a e₁ e₂ e₃ e₄ = rw (step_channels, e₁, e₂, e₃, e₄) refl

channels-IsApu :
    (a : Apu) → IsApu a → (b : Apu) × (step_channels a ≡ some b) × IsApu b × (b.buffer ≡ a.buffer)
channels-IsApu a v =
    let (c₁, e₁, v₁) = step-IsSquare cycles_per_sample a.ch1 v.ch1 in
    let (c₂, e₂, v₂) = step-IsSquare cycles_per_sample a.ch2 v.ch2 in
    let (c₃, e₃, v₃) = step-IsWave cycles_per_sample a.ch3 v.ch3 in
    let (c₄, e₄, v₄) = step-IsNoise cycles_per_sample a.ch4 v.ch4 in
    (
      record a { ch1 = c₁; ch2 = c₂; ch3 = c₃; ch4 = c₄ },
      all_step a e₁ e₂ e₃ e₄,
      record { ch1 = v₁; ch2 = v₂; ch3 = v₃; ch4 = v₄ },
      refl,
    )

generate_from :
    (a b : Apu)
    → step_channels a ≡ some b
    → IsApu b
    → b.buffer ≡ a.buffer
    → (c : Apu) × (generate_sample a ≡ some c) × IsLater 1 a c
unfolding generate_sample
generate_from a b e w same =
    rw (generate_sample, e)
      (
        _,
        refl,
        record {
          valid = record { ch1 = w.ch1; ch2 = w.ch2; ch3 = w.ch3; ch4 = w.ch4 };
          made = length-append b.buffer _ ∙ omega (arith, ap length same);
        },
      )

pub generate-IsLater :
    (a : Apu) → IsApu a → (b : Apu) × (generate_sample a ≡ some b) × IsLater 1 a b
generate-IsLater a v = let (b, e, w, same) = channels-IsApu a v in generate_from a b e w same

-- One turn of the loop.
pub loop_turn :
    (fuel end target : ℕ) (a b : Apu)
    → generate_sample a ≡ some b
    → end ≤ target
    → end + 512 < 2 ^ 32
    → sample_loop generate_sample (suc fuel) end target a
      ≡ sample_loop generate_sample fuel (end + 512) target b
unfolding sample_loop
loop_turn fuel end target a b e h k =
    let next : u32 (end + 512) ≡ end + 512 = omega arith in rw (le→leb end target h, e, next) refl

loop_ends :
    (end target : ℕ) (a : Apu) → target < end → sample_loop generate_sample 1 end target a ≡ some a
unfolding sample_loop
loop_ends end target a h = rw (gt→leb end target h) refl

-- The loop from the end of a sample on, with `n` samples up to the target.
sample_loop-IsLater :
    (n end target : ℕ) (a : Apu)
    → IsApu a
    → end + n * 512 ≤ target + 512
    → target < end + n * 512
    → target + 512 < 2 ^ 32
    → (b : Apu) × (sample_loop generate_sample (suc n) end target a ≡ some b) × IsLater n a b
sample_loop-IsLater zero end target a v h k l =
    (a, loop_ends end target a (omega arith), record { valid = v; made = omega arith })
sample_loop-IsLater (suc n) end target a v h k l =
    let (b, e, w) = generate-IsLater a v in
    let (c, f, x) =
      sample_loop-IsLater n (end + 512) target b w.valid (omega arith) (omega arith) l in
    (
      c,
      loop_turn (suc n) end target a b e (omega arith) (omega arith) ∙ f,
      record { valid = x.valid; made = omega (arith, w.made, x.made) },
    )

pub enabled_tick :
    (fuel target : ℕ) (a b : Apu)
    → apu_enabled a ≡ true
    → sample_loop generate_sample fuel (u32 ((a.sample_clock / 512 + 1) * 512)) target a ≡ some b
    → tick_until fuel target a ≡ some (record b { sample_clock = target })
unfolding tick_until
enabled_tick fuel target a b on e = rw (on, e) refl

-- Up to the last 512 cycles before the 32-bit sample clock wraps, `tick_until` of an enabled sound
-- unit ends, and adds one sample for each ear at each multiple of 512 that the clock passes.
pub tick_until-samples :
    (target : ℕ) (a : Apu)
    → IsApu a
    → apu_enabled a ≡ true
    → a.sample_clock ≤ target
    → target + 512 < 2 ^ 32
    → let n = target / 512 - a.sample_clock / 512 in
      (b : Apu) × (tick_until (suc n) target a ≡ some b)
      × (b.sample_clock ≡ target)
      × (length b.buffer ≡ length a.buffer + 2 * n)
tick_until-samples target a v on h k =
    let n = target / 512 - a.sample_clock / 512 in
    let end = (a.sample_clock / 512 + 1) * 512 in
    let fits : u32 end ≡ end = omega arith in
    let (b, e, w) = sample_loop-IsLater n end target a v (omega arith) (omega arith) k in
    (
      record b { sample_clock = target },
      enabled_tick (suc n) target a b on
          (ap (λ (x : ℕ). sample_loop generate_sample (suc n) x target a) fits ∙ e),
      refl,
      w.made,
    )

loop_forever :
    (fuel end target : ℕ) (a : Apu)
    → 2 ^ 32 - 512 ≤ target
    → end % 512 ≡ 0
    → end < 2 ^ 32
    → sample_loop generate_sample fuel end target a ≡ none
unfolding sample_loop
loop_forever zero end target a h k l = refl
loop_forever (suc fuel) end target a h k l = rw (le→leb end target (omega arith)) (
    turn (λ b. loop_forever fuel (u32 (end + 512)) target b h (omega arith) (omega arith))
      (generate_sample a))
  where
    turn :
        ((b : Apu) → sample_loop generate_sample fuel (u32 (end + 512)) target b ≡ none)
        → (o : Option Apu)
        → elim o [
          | none ↦ none
          | some b ↦ sample_loop generate_sample fuel (u32 (end + 512)) target b
        ]
          ≡ none
    turn on none = refl
    turn on (some b) = on b

-- In the last 512 cycles before the 32-bit sample clock wraps, the end of the current sample wraps
-- to 0, and the loop of an enabled sound unit does not end: no fuel gives a result.
pub tick_until-diverges :
    (fuel target : ℕ) (a : Apu)
    → apu_enabled a ≡ true
    → 2 ^ 32 - 512 ≤ a.sample_clock
    → a.sample_clock < 2 ^ 32
    → a.sample_clock ≤ target
    → tick_until fuel target a ≡ none
unfolding tick_until
tick_until-diverges fuel target a on h k l =
    rw
      (
        on,
        loop_forever fuel (u32 ((a.sample_clock / 512 + 1) * 512)) target a (omega arith)
            (omega arith) (omega arith),
      )
      refl
