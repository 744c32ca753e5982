-- ===== src/Apu/Square.antt =====
-- The square-wave channels 1 and 2: candidates/gba-core/src/apu.rs, `SquareChannel`.
pub mod Inv
pub mod Registers
use gba_eval.Apu.ClockLoop.{clock_loop}
use gba_eval.Base.{
  ℕ, zero, suc, ◌+◌, ◌-◌, ◌*◌, ◌/◌, ◌%◌, ◌^◌, ◌==◌, ◌&&◌, ◌||◌, not, leb, ltb, Bool, true, false,
  if◌then◌else◌, u16, field, low_bits, test_bit, of_bool, ◌>>>◌, ◌<<<◌, bit_and, bit_or, List, [],
  ◌∷◌, get_or, Option, some, none,
}

pub duty_table : List (List ℕ)
duty_table =
    (0 ∷ 0 ∷ 0 ∷ 0 ∷ 0 ∷ 0 ∷ 0 ∷ 1 ∷ [])
    ∷ (1 ∷ 0 ∷ 0 ∷ 0 ∷ 0 ∷ 0 ∷ 0 ∷ 1 ∷ [])
    ∷ (1 ∷ 0 ∷ 0 ∷ 0 ∷ 0 ∷ 1 ∷ 1 ∷ 1 ∷ [])
    ∷ (0 ∷ 1 ∷ 1 ∷ 1 ∷ 1 ∷ 1 ∷ 1 ∷ 0 ∷ [])
    ∷ []

pub record SquareChannel : Type 0 where
  pub active : Bool
  pub sweep_period : ℕ
  pub sweep_negate : Bool
  pub sweep_shift : ℕ
  pub sweep_timer : ℕ
  pub sweep_enabled : Bool
  pub sweep_shadow : ℕ
  pub duty : ℕ
  pub length_counter : ℕ
  pub length_enabled : Bool
  pub env_initial : ℕ
  pub env_direction : Bool
  pub env_period : ℕ
  pub env_timer : ℕ
  pub env_volume : ℕ
  pub frequency : ℕ
  pub timer : ℕ
  pub duty_pos : ℕ

abbrev pub square_new : SquareChannel
square_new = record {
  active = false;
  sweep_period = 0;
  sweep_negate = false;
  sweep_shift = 0;
  sweep_timer = 0;
  sweep_enabled = false;
  sweep_shadow = 0;
  duty = 0;
  length_counter = 0;
  length_enabled = false;
  env_initial = 0;
  env_direction = false;
  env_period = 0;
  env_timer = 0;
  env_volume = 0;
  frequency = 0;
  timer = 0;
  duty_pos = 0;
}

abbrev pub square_period : SquareChannel → ℕ
square_period c = (2048 - c.frequency) * 16

abbrev pub next_duty : ℕ → ℕ
next_duty p = low_bits 3 (p + 1)

-- `none` stands for a loop that does not end.
pub square_step : ℕ → SquareChannel → Option SquareChannel
square_step cycles c =
    if not c.active
    then some c
    else elim (clock_loop (suc cycles) (square_period c) next_duty cycles c.timer c.duty_pos) [
      | none ↦ none
      | some (t, p) ↦ some (record c { timer = t; duty_pos = p })
    ]

pub square_output : SquareChannel → ℕ
unfolding duty_table
square_output c =
    if not c.active then 0 else get_or (get_or duty_table c.duty []) c.duty_pos 0 * c.env_volume

pub square_length_tick : SquareChannel → SquareChannel
square_length_tick c =
    if c.length_enabled && ltb 0 c.length_counter
    then (let c' = record c { length_counter = c.length_counter - 1 } in
        if c'.length_counter == 0 then record c' { active = false } else c')
    else c

pub square_envelope_tick : SquareChannel → SquareChannel
square_envelope_tick c =
    if c.env_period == 0
    then c
    else (let c₁ = record c { env_timer = c.env_timer - 1 } in
        if c₁.env_timer == 0
        then (let c₂ = record c₁ { env_timer = c.env_period } in
            if c.env_direction && ltb c.env_volume 15
            then record c₂ { env_volume = c.env_volume + 1 }
            else if not c.env_direction && ltb 0 c.env_volume
            then record c₂ { env_volume = c.env_volume - 1 }
            else c₂)
        else c₁)

pub calc_sweep : SquareChannel → ℕ
calc_sweep c =
    let delta = c.sweep_shadow >>> c.sweep_shift in
    if c.sweep_negate then u16 (c.sweep_shadow + 2 ^ 16 - delta) else c.sweep_shadow + delta

pub sweep_tick : SquareChannel → SquareChannel
sweep_tick c =
    if not c.sweep_enabled || c.sweep_period == 0
    then c
    else (let c₁ = record c { sweep_timer = c.sweep_timer - 1 } in
        if c₁.sweep_timer == 0
        then (let c₂ = record c₁ { sweep_timer = c.sweep_period } in
            let new_freq = calc_sweep c₂ in
            if leb new_freq 2047 && ltb 0 c.sweep_shift
            then (let c₃ = record c₂ { sweep_shadow = new_freq; frequency = new_freq } in
                if ltb 2047 (calc_sweep c₃) then record c₃ { active = false } else c₃)
            else if ltb 2047 new_freq
            then record c₂ { active = false }
            else c₂)
        else c₁)

-- The last two lines of `trigger`.
trigger_mutes : SquareChannel → SquareChannel
trigger_mutes c =
    let c' =
      if ltb 0 c.sweep_shift && ltb 2047 (calc_sweep c) then record c { active = false } else c in
    if c.env_initial == 0 && not c.env_direction then record c' { active = false } else c'

pub trigger : SquareChannel → SquareChannel
trigger c = trigger_mutes (record c {
  active = true;
  length_counter = if c.length_counter == 0 then 64 else c.length_counter;
  timer = (2048 - c.frequency) * 16;
  env_volume = c.env_initial;
  env_timer = c.env_period;
  sweep_shadow = c.frequency;
  sweep_timer = if ltb 0 c.sweep_period then c.sweep_period else 8;
  sweep_enabled = ltb 0 c.sweep_period || ltb 0 c.sweep_shift;
})

pub read_nr10 : SquareChannel → ℕ
read_nr10 c = bit_or (bit_or (c.sweep_period <<< 4) (of_bool c.sweep_negate <<< 3)) c.sweep_shift

pub read_nr11_12 : SquareChannel → ℕ
read_nr11_12 c =
    bit_or (bit_or (bit_or (c.duty <<< 6) (c.env_initial <<< 12)) (of_bool c.env_direction <<< 11))
      (c.env_period <<< 8)

pub read_nr13_14 : SquareChannel → ℕ
read_nr13_14 c = of_bool c.length_enabled <<< 14

pub write_nr10 : ℕ → SquareChannel → SquareChannel
write_nr10 val c = record c {
  sweep_period = field 4 3 val;
  sweep_negate = test_bit 3 val;
  sweep_shift = low_bits 3 val;
}

pub write_nr11_12 : ℕ → SquareChannel → SquareChannel
write_nr11_12 val c =
    let c' = record c {
      duty = field 6 2 val;
      length_counter = 64 - low_bits 6 val;
      env_period = field 8 3 val;
      env_direction = test_bit 11 val;
      env_initial = field 12 4 val;
    } in
    if c'.env_initial == 0 && not c'.env_direction then record c' { active = false } else c'

pub write_nr13_14 : ℕ → SquareChannel → SquareChannel
write_nr13_14 val c =
    let c' = record c {
      frequency = bit_or (bit_and c.frequency 0x700) (low_bits 11 val);
      length_enabled = test_bit 14 val;
    } in
    if test_bit 15 val then trigger (record c' { frequency = low_bits 11 val }) else c'
