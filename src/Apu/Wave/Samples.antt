-- ===== src/Apu/Wave/Samples.antt =====
-- The memory of the wave channel.
use gba_eval.Base.{
  ℕ, ◌+◌, ◌*◌, ◌/◌, ◌%◌, ◌^◌, ◌<◌, ◌≤◌, ◌≡◌, arith, ap, ap₂, ◌∙◌, bit_or, bit_or-fields,
  bit_or_comm, update, u8, ◌≢◌,
}
use gba_eval.Apu.Wave.{WaveChannel, read_wave, write_wave, wave_output, sample_index}

-- Every byte of the memory.
pub IsWaveRam : (ℕ → ℕ) → Type 0
IsWaveRam ram = (i : ℕ) → ram i < 256

-- A halfword of the wave memory reads back as it was written, and a halfword of another address
-- keeps its value.
pub read_wave-write_wave :
    (a b val : ℕ) (c : WaveChannel)
    → val < 2 ^ 16
    → (read_wave a (write_wave a val c) ≡ val)
      × (a % 16 ≢ b % 16 → read_wave b (write_wave a val c) ≡ read_wave b c)
unfolding read_wave write_wave
read_wave-write_wave a b val c h = (
  ap₂ bit_or low_byte high_byte
      ∙ bit_or_comm (val % 2 ^ 8) (val / 2 ^ 8 % 2 ^ 8 * 2 ^ 8)
      ∙ bit_or-fields 8 (val / 2 ^ 8 % 2 ^ 8) (val % 2 ^ 8) (omega arith)
      ∙ omega arith,
  λ n. ap₂ bit_or (ground arith) (ap (λ (t : ℕ). t * 2 ^ 8) (ground arith)),
)
  where
    low_byte :
        update
          (update c.wave_ram (a % 2 ^ 4 * 2) (u8 val))
          (a % 2 ^ 4 * 2 + 1)
          (u8 (val / 2 ^ 8))
          (a % 2 ^ 4 * 2)
        ≡ val % 2 ^ 8
    low_byte = ground arith

    high_byte :
        update
            (update c.wave_ram (a % 2 ^ 4 * 2) (u8 val))
            (a % 2 ^ 4 * 2 + 1)
            (u8 (val / 2 ^ 8))
            (a % 2 ^ 4 * 2 + 1)
          * 2 ^ 8
        ≡ val / 2 ^ 8 % 2 ^ 8 * 2 ^ 8
    high_byte = ap (λ (t : ℕ). t * 2 ^ 8) (ground arith)

-- A write at a register's even address reaches only the bytes whose index is 0 or 1 modulo 4:
-- half of the memory keeps its value whatever is written.
pub write_wave-misses :
    (addr val i : ℕ) (c : WaveChannel)
    → addr % 2 ≡ 0
    → 2 ≤ i % 4
    → (write_wave addr val c).wave_ram i ≡ c.wave_ram i
unfolding write_wave
write_wave-misses addr val i c even missed = ground arith

index-lt : (c : WaveChannel) → c.position < 64 → sample_index c / 2 < 32
unfolding sample_index
index-lt c p = ground arith

level-le : (c : WaveChannel) → c.wave_ram (sample_index c / 2) < 256 → wave_output c ≤ 45
unfolding wave_output
level-le c h = ground arith

-- The level of the channel is at most 45, a 4-bit sample times 3, and the index of its byte is
-- within the 32 bytes, wherever the bank and the position are within their own bounds.
wave_output-le :
    (c : WaveChannel)
    → IsWaveRam c.wave_ram
    → c.position < 64
    → (wave_output c ≤ 45) × (sample_index c / 2 < 32)
unfolding IsWaveRam
wave_output-le c ram p = (level-le c (ram (sample_index c / 2)), index-lt c p)
