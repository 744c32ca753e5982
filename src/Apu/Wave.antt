-- ===== src/Apu/Wave.antt =====
-- The wave channel 3: candidates/gba-core/src/apu.rs, `WaveChannel`.
pub mod Samples
pub mod Inv
use gba_eval.Apu.ClockLoop.{clock_loop}
use gba_eval.Base.{
  ℕ, zero, suc, ◌+◌, ◌-◌, ◌*◌, ◌/◌, ◌%◌, ◌^◌, ◌==◌, ◌&&◌, ◌||◌, not, leb, ltb, Bool, true, false,
  if◌then◌else◌, u8, field, low_bits, test_bit, of_bool, ◌>>>◌, ◌<<<◌, bit_and, bit_or, update,
  Option, some, none,
}

pub record WaveChannel : Type 0 where
  pub active : Bool
  pub enabled : Bool
  pub length_counter : ℕ
  pub length_enabled : Bool
  pub volume_code : ℕ
  pub force_75 : Bool
  pub frequency : ℕ
  pub timer : ℕ
  pub position : ℕ
  pub wave_ram : ℕ → ℕ
  pub wave_bank : ℕ
  pub dimension : Bool

abbrev pub wave_new : WaveChannel
wave_new = record {
  active = false;
  enabled = false;
  length_counter = 0;
  length_enabled = false;
  volume_code = 0;
  force_75 = false;
  frequency = 0;
  timer = 0;
  position = 0;
  wave_ram = λ i. 0;
  wave_bank = 0;
  dimension = false;
}

abbrev pub wave_period : WaveChannel → ℕ
wave_period c = (2048 - c.frequency) * 8

abbrev pub wave_length : WaveChannel → ℕ
wave_length c = if c.dimension then 64 else 32

-- `none` stands for a loop that does not end.
pub wave_step : ℕ → WaveChannel → Option WaveChannel
wave_step cycles c =
    if not c.active || not c.enabled
    then some c
    else elim (clock_loop (suc cycles) (wave_period c) (λ p. (p + 1) % wave_length c) cycles c.timer
        c.position) [ none ↦ none | some (t, p) ↦ some (record c { timer = t; position = p }) ]

-- The index of the sample that plays.
pub sample_index : WaveChannel → ℕ
sample_index c = if c.dimension then c.position else (c.wave_bank * 32 + c.position) % 64

pub wave_output : WaveChannel → ℕ
wave_output c =
    if not c.active || not c.enabled
    then 0
    else (let idx = sample_index c in
        let byte = c.wave_ram (idx / 2) in
        let sample = if low_bits 1 idx == 0 then byte >>> 4 else low_bits 4 byte in
        let shift =
          if c.volume_code == 0
          then 4
          else if c.volume_code == 1
          then 0
          else if c.volume_code == 2
          then 1
          else 2 in
        (if c.force_75 then sample + (sample <<< 1) else sample) >>> shift)

pub wave_length_tick : WaveChannel → WaveChannel
wave_length_tick c =
    if c.length_enabled && ltb 0 c.length_counter
    then (let c' = record c { length_counter = c.length_counter - 1 } in
        if c'.length_counter == 0 then record c' { active = false } else c')
    else c

pub read_nr30 : WaveChannel → ℕ
read_nr30 c =
    bit_or (bit_or (of_bool c.dimension <<< 5) (c.wave_bank <<< 6)) (of_bool c.enabled <<< 7)

pub read_nr31_32 : WaveChannel → ℕ
read_nr31_32 c = bit_or (c.volume_code <<< 13) (of_bool c.force_75 <<< 15)

pub read_nr33_34 : WaveChannel → ℕ
read_nr33_34 c = of_bool c.length_enabled <<< 14

pub read_wave : ℕ → WaveChannel → ℕ
read_wave addr c = let i = low_bits 4 addr * 2 in bit_or (c.wave_ram i) (c.wave_ram (i + 1) <<< 8)

pub write_nr30 : ℕ → WaveChannel → WaveChannel
write_nr30 val c =
    let c' = record c {
      dimension = test_bit 5 val;
      wave_bank = field 6 1 val;
      enabled = test_bit 7 val;
    } in
    if not c'.enabled then record c' { active = false } else c'

pub write_nr31_32 : ℕ → WaveChannel → WaveChannel
write_nr31_32 val c = record c {
  length_counter = 256 - low_bits 8 val;
  volume_code = field 13 2 val;
  force_75 = test_bit 15 val;
}

pub write_nr33_34 : ℕ → WaveChannel → WaveChannel
write_nr33_34 val c =
    let c' = record c {
      frequency = bit_or (bit_and c.frequency 0x700) (low_bits 11 val);
      length_enabled = test_bit 14 val;
    } in
    if test_bit 15 val
    then record c' {
      frequency = low_bits 11 val;
      active = true;
      length_counter = if c.length_counter == 0 then 256 else c.length_counter;
      timer = (2048 - low_bits 11 val) * 8;
      position = 0;
    }
    else c'

pub write_wave : ℕ → ℕ → WaveChannel → WaveChannel
write_wave addr val c =
    let i = low_bits 4 addr * 2 in
    record c { wave_ram = update (update c.wave_ram i (u8 val)) (i + 1) (u8 (val >>> 8)) }
