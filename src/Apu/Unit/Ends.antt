-- ===== src/Apu/Unit/Ends.antt =====
-- The sound unit always comes to the end of a batch of cycles.
use gba_eval.Base.{
  ℕ, zero, suc, ◌+◌, ◌*◌, ◌/◌, ◌^◌, ◌<◌, ◌≤◌, ◌==◌, ◌≡◌, refl, ◌∙◌, Bool, true, false, arith,
  if◌then◌else◌, some, u32, leb, Bool-cases, inl, inr, of_bool, test_bit, low_bits,
}
use gba_eval.Apu.Registers.{write_fifo_32}
use gba_eval.Apu.Unit.{
  Apu, apu_enabled, generate_sample, sample_loop, tick_until, on_timer_overflow,
}
use gba_eval.Apu.Unit.Clock.{IsApu, generate-IsLater, loop_turn, enabled_tick}

loop_stops :
    (fuel end target : ℕ) (a : Apu)
    → leb end target ≡ false
    → sample_loop generate_sample (suc fuel) end target a ≡ some a
unfolding sample_loop
loop_stops fuel end target a h = rw h refl

sample_loop-ends :
    (fuel end target : ℕ) (a : Apu)
    → IsApu a
    → target < end + fuel * 512
    → target + 512 < 2 ^ 32
    → (b : Apu) × (sample_loop generate_sample (suc fuel) end target a ≡ some b) × IsApu b
sample_loop-ends zero end target a v h l = (a, loop_stops zero end target a (ground (arith, h)), v)
sample_loop-ends (suc fuel) end target a v h l = elim (Bool-cases (leb end target)) [
  | inr past ↦ (a, loop_stops (suc fuel) end target a past, v)
  | inl more ↦
      let reached : end ≤ target = ground (arith, more) in
      let (b, e, w) = generate-IsLater a v in
      let (c, f, x) = sample_loop-ends fuel (end + 512) target b w.valid (omega arith) l in
      (c, loop_turn (suc fuel) end target a b e reached (omega (arith, reached)) ∙ f, x)
]

-- With two more than the multiples of 512 up to the target, `tick_until` ends, wherever the clock of
-- the samples stands.
pub tick_until-ends :
    (fuel target : ℕ) (a : Apu)
    → IsApu a
    → target + 512 < 2 ^ 32
    → target / 512 + 2 ≤ fuel
    → (b : Apu) × (tick_until fuel target a ≡ some b) × IsApu b
unfolding tick_until
tick_until-ends zero target a v l h = absurd (omega arith)
tick_until-ends (suc fuel) target a v l h = elim (Bool-cases (apu_enabled a)) [
  | inl on ↦
      let end = u32 ((a.sample_clock / 512 + 1) * 512) in
      let (b, e, w) = sample_loop-ends fuel end target a v (omega arith) l in
      (
        record b { sample_clock = target },
        enabled_tick (suc fuel) target a b on e,
        record { ch1 = w.ch1; ch2 = w.ch2; ch3 = w.ch3; ch4 = w.ch4 },
      )
  | inr off ↦ (
    record a { sample_clock = target },
    rw off refl,
    record { ch1 = v.ch1; ch2 = v.ch2; ch3 = v.ch3; ch4 = v.ch4 },
  )
]

-- The queues are no part of what the channels need.
either : (t : Bool) {a b : Apu} → IsApu a → IsApu b → IsApu (if t then a else b)
either true v w = v
either false v w = w

pub on_timer_overflow-IsApu : (i : ℕ) (a : Apu) → IsApu a → IsApu (on_timer_overflow i a)
unfolding on_timer_overflow
on_timer_overflow-IsApu i a v =
    let w =
      either (i == of_bool (test_bit 10 a.soundcnt_h))
        (record { ch1 = v.ch1; ch2 = v.ch2; ch3 = v.ch3; ch4 = v.ch4 }) v in
    either (i == of_bool (test_bit 14 a.soundcnt_h))
      (record { ch1 = w.ch1; ch2 = w.ch2; ch3 = w.ch3; ch4 = w.ch4 }) w

pub write_fifo_32-IsApu : (addr val : ℕ) (a : Apu) → IsApu a → IsApu (write_fifo_32 addr val a)
unfolding write_fifo_32
write_fifo_32-IsApu addr val a v =
    either (low_bits 12 addr == 0x0a0)
      (record { ch1 = v.ch1; ch2 = v.ch2; ch3 = v.ch3; ch4 = v.ch4 })
      (either (low_bits 12 addr == 0x0a4)
        (record { ch1 = v.ch1; ch2 = v.ch2; ch3 = v.ch3; ch4 = v.ch4 }) v)
