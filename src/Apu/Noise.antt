-- ===== src/Apu/Noise.antt =====
-- The noise channel 4: candidates/gba-core/src/apu.rs, `NoiseChannel`.
pub mod Shifts
use gba_eval.Apu.ClockLoop.{clock_loop}
use gba_eval.Base.{
  ℕ, zero, suc, ◌+◌, ◌-◌, ◌*◌, ◌/◌, ◌%◌, ◌^◌, ◌==◌, ◌&&◌, ◌||◌, not, leb, ltb, Bool, true, false,
  if◌then◌else◌, u32, field, low_bits, test_bit, of_bool, ◌>>>◌, ◌<<<◌, bit_or, bit_xor, clear_bit,
  not16, Option, some, none,
}

pub record NoiseChannel : Type 0 where
  pub active : Bool
  pub length_counter : ℕ
  pub length_enabled : Bool
  pub env_initial : ℕ
  pub env_direction : Bool
  pub env_period : ℕ
  pub env_timer : ℕ
  pub env_volume : ℕ
  pub clock_shift : ℕ
  pub width_mode : Bool
  pub divisor_code : ℕ
  pub timer : ℕ
  pub lfsr : ℕ

abbrev pub noise_new : NoiseChannel
noise_new = record {
  active = false;
  length_counter = 0;
  length_enabled = false;
  env_initial = 0;
  env_direction = false;
  env_period = 0;
  env_timer = 0;
  env_volume = 0;
  clock_shift = 0;
  width_mode = false;
  divisor_code = 0;
  timer = 0;
  lfsr = 0x7fff;
}

pub noise_period : NoiseChannel → ℕ
noise_period c =
    let base = if c.divisor_code == 0 then 32 else c.divisor_code * 64 in
    u32 (base <<< c.clock_shift)

-- One turn of the shift register.
pub next_lfsr : Bool → ℕ → ℕ
next_lfsr width_mode lfsr =
    let xor = bit_xor (low_bits 1 lfsr) (low_bits 1 (lfsr >>> 1)) in
    let lfsr' = bit_or (lfsr >>> 1) (xor <<< 14) in
    if width_mode then bit_or (clear_bit 6 lfsr') (xor <<< 6) else lfsr'

-- `none` stands for a loop that does not end.
pub noise_step : ℕ → NoiseChannel → Option NoiseChannel
noise_step cycles c =
    if not c.active
    then some c
    else elim (clock_loop (suc cycles) (noise_period c) (next_lfsr c.width_mode) cycles c.timer
        c.lfsr) [ none ↦ none | some (t, l) ↦ some (record c { timer = t; lfsr = l }) ]

pub noise_output : NoiseChannel → ℕ
noise_output c = if not c.active then 0 else low_bits 1 (not16 c.lfsr) * c.env_volume

pub noise_length_tick : NoiseChannel → NoiseChannel
noise_length_tick c =
    if c.length_enabled && ltb 0 c.length_counter
    then (let c' = record c { length_counter = c.length_counter - 1 } in
        if c'.length_counter == 0 then record c' { active = false } else c')
    else c

pub noise_envelope_tick : NoiseChannel → NoiseChannel
noise_envelope_tick c =
    if c.env_period == 0
    then c
    else (let c₁ = record c { env_timer = c.env_timer - 1 } in
        if c₁.env_timer == 0
        then (let c₂ = record c₁ { env_timer = c.env_period } in
            if c.env_direction && ltb c.env_volume 15
            then record c₂ { env_volume = c.env_volume + 1 }
            else if not c.env_direction && ltb 0 c.env_volume
            then record c₂ { env_volume = c.env_volume - 1 }
            else c₂)
        else c₁)

pub read_nr41_42 : NoiseChannel → ℕ
read_nr41_42 c =
    bit_or (bit_or (c.env_initial <<< 12) (of_bool c.env_direction <<< 11)) (c.env_period <<< 8)

pub read_nr43_44 : NoiseChannel → ℕ
read_nr43_44 c =
    bit_or (bit_or (bit_or c.divisor_code (of_bool c.width_mode <<< 3)) (c.clock_shift <<< 4))
      (of_bool c.length_enabled <<< 14)

pub write_nr41_42 : ℕ → NoiseChannel → NoiseChannel
write_nr41_42 val c = record c {
  length_counter = 64 - low_bits 6 val;
  env_period = field 8 3 val;
  env_direction = test_bit 11 val;
  env_initial = field 12 4 val;
}

-- The trigger of `write_nr43_44`.
noise_trigger : NoiseChannel → NoiseChannel
unfolding noise_period
noise_trigger c =
    let c' = record c {
      active = true;
      length_counter = if c.length_counter == 0 then 64 else c.length_counter;
      env_volume = c.env_initial;
      env_timer = c.env_period;
      lfsr = 0x7fff;
      timer = noise_period c;
    } in
    if c.env_initial == 0 && not c.env_direction then record c' { active = false } else c'

pub write_nr43_44 : ℕ → NoiseChannel → NoiseChannel
write_nr43_44 val c =
    let c' = record c {
      divisor_code = low_bits 3 val;
      width_mode = test_bit 3 val;
      clock_shift = field 4 4 val;
      length_enabled = test_bit 14 val;
    } in
    if test_bit 15 val then noise_trigger c' else c'
