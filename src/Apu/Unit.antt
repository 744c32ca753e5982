-- ===== src/Apu/Unit.antt =====
-- The sound unit as a whole: candidates/gba-core/src/apu.rs, `Apu`. A sample is kept as the integer
-- that the code divides by 32768 as a float; the filter's words do not wrap, so they are integers.
pub mod Clock
pub mod Ends
pub mod Dac
use gba_eval.Base.{
  ℕ, zero, suc, ◌+◌, ◌-◌, ◌*◌, ◌/◌, ◌%◌, ◌^◌, min, ◌==◌, ◌&&◌, ◌||◌, not, leb, ltb, Bool, true,
  false, if◌then◌else◌, u8, u32, field, low_bits, test_bit, clear_bit, of_bool, ◌>>>◌, ◌<<<◌,
  bit_and, bit_or, Option, some, none, List, [], ◌∷◌, ◌++◌, ℤ, pos, negsuc, ◌+ℤ◌, ◌-ℤ◌, shl_ℤ,
  shr_ℤ, scale_ℤ, clamp_ℤ,
}
use gba_eval.Apu.Fifo.{Fifo, fifo_new, fifo_reset, fifo_write, fifo_read}
use gba_eval.Apu.Square.{
  SquareChannel, square_new, square_step, square_output, square_length_tick, square_envelope_tick,
  sweep_tick, read_nr10, read_nr11_12, read_nr13_14, write_nr10, write_nr11_12, write_nr13_14,
}
use gba_eval.Apu.Wave.{
  WaveChannel, wave_new, wave_step, wave_output, wave_length_tick, read_nr30, read_nr31_32,
  read_nr33_34, read_wave, write_nr30, write_nr31_32, write_nr33_34, write_wave,
}
use gba_eval.Apu.Noise.{
  NoiseChannel, noise_new, noise_step, noise_output, noise_length_tick, noise_envelope_tick,
  read_nr41_42, read_nr43_44, write_nr41_42, write_nr43_44,
}

abbrev pub cycles_per_sample : ℕ
cycles_per_sample = 512

pub record Apu : Type 0 where
  pub soundcnt_l : ℕ
  pub soundcnt_h : ℕ
  pub soundcnt_x : ℕ
  pub soundbias : ℕ
  pub ch1 : SquareChannel
  pub ch2 : SquareChannel
  pub ch3 : WaveChannel
  pub ch4 : NoiseChannel
  pub fifo_a : Fifo
  pub fifo_b : Fifo
  pub fifo_a_sample : ℤ
  pub fifo_b_sample : ℤ
  pub sample_clock : ℕ
  pub buffer : List ℤ
  pub dc_x_l : ℤ
  pub dc_y_l : ℤ
  pub dc_x_r : ℤ
  pub dc_y_r : ℤ

abbrev pub apu_new : Apu
apu_new = record {
  soundcnt_l = 0;
  soundcnt_h = 0;
  soundcnt_x = 0;
  soundbias = 0x0200;
  ch1 = square_new;
  ch2 = square_new;
  ch3 = wave_new;
  ch4 = noise_new;
  fifo_a = fifo_new;
  fifo_b = fifo_new;
  fifo_a_sample = pos 0;
  fifo_b_sample = pos 0;
  sample_clock = 0;
  buffer = [];
  dc_x_l = pos 0;
  dc_y_l = pos 0;
  dc_x_r = pos 0;
  dc_y_r = pos 0;
}

abbrev pub apu_enabled : Apu → Bool
apu_enabled a = test_bit 7 a.soundcnt_x

pub on_timer_overflow : ℕ → Apu → Apu
on_timer_overflow timer_id a =
    let timer_a = of_bool (test_bit 10 a.soundcnt_h) in
    let timer_b = of_bool (test_bit 14 a.soundcnt_h) in
    let a₁ =
      if timer_id == timer_a
      then record a { fifo_a = (fifo_read a.fifo_a).0; fifo_a_sample = (fifo_read a.fifo_a).1 }
      else a in
    if timer_id == timer_b
    then record a₁ { fifo_b = (fifo_read a.fifo_b).0; fifo_b_sample = (fifo_read a.fifo_b).1 }
    else a₁

pub fifo_a_needs_data : Apu → Bool
fifo_a_needs_data a = leb a.fifo_a.len 16

pub fifo_b_needs_data : Apu → Bool
fifo_b_needs_data a = leb a.fifo_b.len 16

-- The channels one sample further; `none` if a channel's loop does not end.
pub step_channels : Apu → Option Apu
step_channels a = elim (square_step cycles_per_sample a.ch1) [
  | none ↦ none
  | some c₁ ↦ elim (square_step cycles_per_sample a.ch2) [
    | none ↦ none
    | some c₂ ↦ elim (wave_step cycles_per_sample a.ch3) [
      | none ↦ none
      | some c₃ ↦ elim (noise_step cycles_per_sample a.ch4) [
        | none ↦ none
        | some c₄ ↦ some (record a { ch1 = c₁; ch2 = c₂; ch3 = c₃; ch4 = c₄ })
      ]
    ]
  ]
]

-- The PSG side of one output: its four enable bits from `k` on, and its volume.
pub psg_mix : ℕ → ℕ → Apu → ℕ
psg_mix k vol a =
    let nr51 = a.soundcnt_l >>> 8 in
    let on : ℕ → ℕ → ℕ = λ bit level. if test_bit (k + bit) nr51 then level else 0 in
    let tones =
      on 0 (square_output a.ch1) + on 1 (square_output a.ch2) + on 2 (wave_output a.ch3) in
    let psg = (tones <<< 3) + (on 3 (noise_output a.ch4) <<< 3) in
    (psg * (vol + 1)) >>> (4 - min (low_bits 2 a.soundcnt_h) 2)

-- The level of a DMA channel, halved unless its volume bit is set.
pub dma_level : ℕ → ℤ → Apu → ℤ
dma_level volume_bit sample a =
    let level = shl_ℤ 2 (shl_ℤ 8 sample) in
    if test_bit volume_bit a.soundcnt_h then level else shr_ℤ 1 level

-- The mix of one output, before the bias; the two DMA channels by their enable bits.
pub mix : ℕ → ℕ → ℕ → ℕ → Apu → ℤ
mix k vol bit_a bit_b a =
    let psg = pos (psg_mix k vol a <<< 8) in
    let with_a =
      if test_bit bit_a a.soundcnt_h then psg +ℤ dma_level 2 a.fifo_a_sample a else psg in
    if test_bit bit_b a.soundcnt_h then with_a +ℤ dma_level 3 a.fifo_b_sample a else with_a

-- Bias, clamp to the resolution of the converter, and gain.
pub dac : ℕ → ℤ → ℤ
dac soundbias level =
    let resolution = field 14 2 soundbias in
    let bias_2x = low_bits 10 soundbias / 2 * 2 in
    let bias = (bias_2x >>> resolution) <<< 8 in
    let max = (0x3ff >>> resolution) <<< 8 in
    let q = shr_ℤ resolution level +ℤ pos bias in
    shr_ℤ 8 (scale_ℤ (32 <<< resolution) (pos (clamp_ℤ max q) -ℤ pos bias))

-- The high-pass filter: input, last input, last output.
pub dc_block : ℤ → ℤ → ℤ → ℤ
dc_block x last_x last_y = shl_ℤ 8 (x -ℤ last_x) +ℤ last_y -ℤ shr_ℤ 8 last_y

pub generate_sample : Apu → Option Apu
generate_sample a = elim (step_channels a) [
  | none ↦ none
  | some b ↦
      let l = dac b.soundbias (mix 4 (field 4 3 b.soundcnt_l) 9 13 b) in
      let r = dac b.soundbias (mix 0 (low_bits 3 b.soundcnt_l) 8 12 b) in
      let yl = dc_block l b.dc_x_l b.dc_y_l in
      let yr = dc_block r b.dc_x_r b.dc_y_r in
      some (record b {
        dc_x_l = l;
        dc_y_l = yl;
        dc_x_r = r;
        dc_y_r = yr;
        buffer = b.buffer ++ (shr_ℤ 8 yl ∷ shr_ℤ 8 yr ∷ []);
      })
]

-- The loop of `tick_until`, on fuel: a sample for each `end` up to `target`. In a release build
-- the addition wraps.
pub sample_loop {ℓ} : {S : Type ℓ} → (S → Option S) → ℕ → ℕ → ℕ → S → Option S
sample_loop generate zero end target a = none
sample_loop generate (suc fuel) end target a =
    if leb end target
    then elim (generate a) [
      | none ↦ none
      | some b ↦ sample_loop generate fuel (u32 (end + cycles_per_sample)) target b
    ]
    else some a

pub tick_until : ℕ → ℕ → Apu → Option Apu
unfolding generate_sample
tick_until fuel target a =
    if not (apu_enabled a)
    then some (record a { sample_clock = target })
    else (let end = u32 ((a.sample_clock / cycles_per_sample + 1) * cycles_per_sample) in
        elim (sample_loop generate_sample fuel end target a) [
          | none ↦ none
          | some b ↦ some (record b { sample_clock = target })
        ])

pub tick : ℕ → ℕ → Apu → Option Apu
tick fuel cycles a = tick_until fuel (u32 (a.sample_clock + cycles)) a

pub drain_samples : Apu → Apu × List ℤ
drain_samples a = (record a { buffer = [] }, a.buffer)

pub frame_sequencer_step : ℕ → Apu → Apu
frame_sequencer_step step a =
    let a₁ =
      if step % 2 == 0
      then record a {
        ch1 = square_length_tick a.ch1;
        ch2 = square_length_tick a.ch2;
        ch3 = wave_length_tick a.ch3;
        ch4 = noise_length_tick a.ch4;
      }
      else a in
    let a₂ = if step == 2 || step == 6 then record a₁ { ch1 = sweep_tick a₁.ch1 } else a₁ in
    if step == 7
    then record a₂ {
      ch1 = square_envelope_tick a₂.ch1;
      ch2 = square_envelope_tick a₂.ch2;
      ch4 = noise_envelope_tick a₂.ch4;
    }
    else a₂
