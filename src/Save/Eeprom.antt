-- ===== src/Save/Eeprom.antt =====
-- The serial protocol of the EEPROM: the game's side of it.
pub mod Command
pub mod Bytes
pub mod Reads
pub mod RoundTrip
pub mod StopBit
use gba_eval.Base.{
  ℕ, zero, suc, ◌+◌, ◌-◌, ◌*◌, ◌/◌, ◌%◌, ◌^◌, ◌<◌, ◌≤◌, ◌≡◌, refl, ◌==◌, ◌&&◌, ◌||◌, not, leb, ltb,
  Bool, true, false, if◌then◌else◌, arith, ap, ◌∙◌, sym, u64, u16, ◌⊎◌, subst, inl, inr, low_bits,
  field, update, ◌>>>◌, ◌<<<◌, div-pow-suc, lt→ltb, Bool-cases,
}
use gba_eval.Save.State.{
  Save, EepromState, idle, reading_command, reading_data, writing_data, EepromSize, large, eeprom,
}
use gba_eval.Save.Serial.{
  eeprom_write_bit, eeprom_bit_at, command_bit, data_bit, push_bit, run_command, load_bytes,
  store_bytes, read_eeprom, address_bits,
}
use gba_eval.Save.Access.{read8, read8_at}

-- The driver: `n` bits of `v`, the highest first.
pub send : ℕ → ℕ → Save → Save
send zero v s = s
send (suc n) v s = eeprom_write_bit (v % 2) (send n (v / 2) s)

-- `n` reads, the first one highest.
pub receive : ℕ → Save → Save × ℕ
receive zero s = (s, 0)
receive (suc n) s = let (s', v) = receive n s in let (s'', b) = read8 0 s' in (s'', v * 2 + b)

-- Between commands.
pub record IsIdle (s : Save) : Type 0 where
  pub kind : s.save_type ≡ eeprom
  pub size : s.eeprom_size ≡ large
  pub state : s.eeprom_state ≡ idle
  pub no_bits : s.eeprom_bits_written ≡ 0
  pub no_command : s.eeprom_command ≡ 0
