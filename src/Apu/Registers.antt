-- ===== src/Apu/Registers.antt =====
-- The registers of the sound unit: candidates/gba-core/src/apu.rs, `read_reg` and `write_reg`.
use gba_eval.Base.{
  ℕ, ◌==◌, ◌&&◌, ◌||◌, not, leb, Bool, if◌then◌else◌, u8, field, low_bits, test_bit, clear_bit,
  of_bool, ◌>>>◌, ◌<<<◌, bit_and, bit_or,
}
use gba_eval.Apu.Fifo.{Fifo, fifo_reset, fifo_write}
use gba_eval.Apu.Square.{
  square_new, read_nr10, read_nr11_12, read_nr13_14, write_nr10, write_nr11_12, write_nr13_14,
}
use gba_eval.Apu.Wave.{
  wave_new, read_nr30, read_nr31_32, read_nr33_34, read_wave, write_nr30, write_nr31_32,
  write_nr33_34, write_wave,
}
use gba_eval.Apu.Noise.{noise_new, read_nr41_42, read_nr43_44, write_nr41_42, write_nr43_44}
use gba_eval.Apu.Unit.{Apu, apu_enabled}

-- SOUNDCNT_X: the master bit, and a bit for each channel that plays.
pub read_status : Apu → ℕ
read_status a =
    let on : ℕ → Bool → ℕ = λ k b. of_bool b <<< k in
    bit_or
      (bit_or (bit_or (bit_or (bit_and a.soundcnt_x 0x80) (on 0 a.ch1.active)) (on 1 a.ch2.active))
        (on 2 a.ch3.active))
      (on 3 a.ch4.active)

pub read_reg : ℕ → Apu → ℕ
read_reg addr a =
    let reg = low_bits 12 addr in
    if reg == 0x060
    then read_nr10 a.ch1
    else if reg == 0x062
    then read_nr11_12 a.ch1
    else if reg == 0x064
    then read_nr13_14 a.ch1
    else if reg == 0x068
    then read_nr11_12 a.ch2
    else if reg == 0x06c
    then read_nr13_14 a.ch2
    else if reg == 0x070
    then read_nr30 a.ch3
    else if reg == 0x072
    then read_nr31_32 a.ch3
    else if reg == 0x074
    then read_nr33_34 a.ch3
    else if reg == 0x078
    then read_nr41_42 a.ch4
    else if reg == 0x07c
    then read_nr43_44 a.ch4
    else if reg == 0x080
    then a.soundcnt_l
    else if reg == 0x082
    then a.soundcnt_h
    else if reg == 0x084
    then read_status a
    else if reg == 0x088
    then a.soundbias
    else if leb 0x090 reg && leb reg 0x09e
    then read_wave addr a.ch3
    else 0

-- SOUNDCNT_H, whose bits 11 and 15 clear a queue and read back as 0.
write_control : ℕ → Apu → Apu
write_control val a = record a {
  fifo_a = if test_bit 11 val then fifo_reset a.fifo_a else a.fifo_a;
  fifo_b = if test_bit 15 val then fifo_reset a.fifo_b else a.fifo_b;
  soundcnt_h = clear_bit 15 (clear_bit 11 val);
}

-- SOUNDCNT_X, whose master bit resets the channels when it goes off.
write_master : ℕ → Apu → Apu
write_master val a =
    let a' = record a { soundcnt_x = bit_and val 0x80 } in
    if apu_enabled a && not (apu_enabled a')
    then record a' { ch1 = square_new; ch2 = square_new; ch3 = wave_new; ch4 = noise_new }
    else a'

pub write_reg : ℕ → ℕ → Apu → Apu
write_reg addr val a =
    let reg = low_bits 12 addr in
    let low = u8 val in
    let high = u8 (val >>> 8) in
    if not (apu_enabled a) && leb reg 0x081
    then a
    else if reg == 0x060
    then record a { ch1 = write_nr10 val a.ch1 }
    else if reg == 0x062
    then record a { ch1 = write_nr11_12 val a.ch1 }
    else if reg == 0x064
    then record a { ch1 = write_nr13_14 val a.ch1 }
    else if reg == 0x068
    then record a { ch2 = write_nr11_12 val a.ch2 }
    else if reg == 0x06c
    then record a { ch2 = write_nr13_14 val a.ch2 }
    else if reg == 0x070
    then record a { ch3 = write_nr30 val a.ch3 }
    else if reg == 0x072
    then record a { ch3 = write_nr31_32 val a.ch3 }
    else if reg == 0x074
    then record a { ch3 = write_nr33_34 val a.ch3 }
    else if reg == 0x078
    then record a { ch4 = write_nr41_42 val a.ch4 }
    else if reg == 0x07c
    then record a { ch4 = write_nr43_44 val a.ch4 }
    else if reg == 0x080
    then record a { soundcnt_l = val }
    else if reg == 0x082
    then write_control val a
    else if reg == 0x084
    then write_master val a
    else if reg == 0x088
    then record a { soundbias = bit_and val 0xc3fe }
    else if leb 0x090 reg && leb reg 0x09e
    then record a { ch3 = write_wave addr val a.ch3 }
    else if reg == 0x0a0 || reg == 0x0a2
    then record a { fifo_a = fifo_write low high a.fifo_a }
    else if reg == 0x0a4 || reg == 0x0a6
    then record a { fifo_b = fifo_write low high a.fifo_b }
    else a

-- A word for a queue, its lowest byte first.
unfoldable pub write_fifo_32 : ℕ → ℕ → Apu → Apu
write_fifo_32 addr val a =
    let write_word = λ (f : Fifo).
      fifo_write (field 16 8 val) (field 24 8 val) (fifo_write (field 0 8 val) (field 8 8 val) f) in
    if low_bits 12 addr == 0x0a0
    then record a { fifo_a = write_word a.fifo_a }
    else if low_bits 12 addr == 0x0a4
    then record a { fifo_b = write_word a.fifo_b }
    else a
