-- ===== src/Save/Inv.antt =====
-- The invariant of the save media: every index is in range and no counter overflows.
use gba_eval.Base.{
  ℕ, ◌+◌, ◌<◌, ◌≤◌, ◌≡◌, refl, ◌==◌, leb, arith, ◌∙◌, low_bits, Bool-cases, List, subst, inl, inr,
}
use gba_eval.Save.State.{
  Save, SaveType, no_save, sram, flash64, flash128, eeprom, FlashState, ready, cmd1, cmd2, erase,
  write, bank_select, id_mode, EepromState, idle, reading_command, reading_data, writing_data,
  EepromSize, small, large, save_new,
}
use gba_eval.Save.Chip.{flash_write, flash_at, flash_command, flash_erase}
use gba_eval.Save.Serial.{
  address_bits, read_eeprom, eeprom_write_bit, eeprom_bit_at, command_bit, data_bit, run_command,
}
use gba_eval.Save.Access.{read8, read8_at, write8, write8_at, detect_from_rom}

-- The bits that complete what is under way.
abbrev pub bit_limit : EepromSize → EepromState → ℕ
bit_limit z idle = 2 + address_bits z
bit_limit z reading_command = 2 + address_bits z
bit_limit z reading_data = 1
bit_limit z writing_data = 64

-- The reads of the buffer that may have been made.
abbrev pub read_limit : EepromState → ℕ
read_limit reading_data = 67
read_limit idle = 68
read_limit reading_command = 68
read_limit writing_data = 68

pub record IsSave (s : Save) : Type 0 where
  pub len : s.data_len ≡ 0x2_0000
  pub bank : s.flash_bank < 2
  pub bits : s.eeprom_bits_written < bit_limit s.eeprom_size s.eeprom_state
  pub pos : s.eeprom_read_pos ≤ read_limit s.eeprom_state

limit_pos : (z : EepromSize) (e : EepromState) → (1 ≤ bit_limit z e) × (read_limit e ≤ 68)
limit_pos small idle = omega arith
limit_pos small reading_command = omega arith
limit_pos small reading_data = omega arith
limit_pos small writing_data = omega arith
limit_pos large idle = omega arith
limit_pos large reading_command = omega arith
limit_pos large reading_data = omega arith
limit_pos large writing_data = omega arith

read_eeprom-IsSave :
    (e : EepromState) (s : Save) → s.eeprom_state ≡ e → IsSave s → IsSave (read_eeprom e s).0
unfolding read_eeprom
read_eeprom-IsSave idle s h v = v
read_eeprom-IsSave reading_command s h v = v
read_eeprom-IsSave writing_data s h v = v
read_eeprom-IsSave reading_data s h v =
    let few : s.eeprom_bits_written < 1 =
      subst (λ (x : EepromState). s.eeprom_bits_written < bit_limit s.eeprom_size x) h v.bits in
    let below : s.eeprom_read_pos ≤ 67 =
      subst (λ (x : EepromState). s.eeprom_read_pos ≤ read_limit x) h v.pos in
    elim (Bool-cases (leb 68 (s.eeprom_read_pos + 1))) [
      | inl last ↦ rw last record {
        len = v.len;
        bank = v.bank;
        bits = omega (arith, few);
        pos = omega (arith, below);
      }
      | inr more ↦
          rw more record { len = v.len; bank = v.bank; bits = v.bits; pos = rw h (ground arith) }
    ]

read8_at-IsSave : (k : SaveType) (addr : ℕ) (s : Save) → IsSave s → IsSave (read8_at k addr s).0
unfolding read8_at
read8_at-IsSave no_save addr s v = v
read8_at-IsSave sram addr s v = v
read8_at-IsSave flash64 addr s v = record { len = v.len; bank = v.bank; bits = v.bits; pos = v.pos }
read8_at-IsSave flash128 addr s v = record {
  len = v.len;
  bank = v.bank;
  bits = v.bits;
  pos = v.pos;
}
read8_at-IsSave eeprom addr s v = read_eeprom-IsSave s.eeprom_state s refl v

run_command-IsSave :
    (cmd : ℕ) (s : Save)
    → s.data_len ≡ 0x2_0000
    → s.flash_bank < 2
    → s.eeprom_read_pos ≤ 68
    → IsSave (run_command cmd s)
unfolding run_command
run_command-IsSave cmd s l b p = ground (arith, (limit_pos s.eeprom_size idle).0)

command_bit-IsSave :
    (bit : ℕ) (s : Save)
    → IsSave s
    → s.eeprom_bits_written < 2 + address_bits s.eeprom_size
    → IsSave (command_bit bit s)
unfolding command_bit
command_bit-IsSave bit s v h =
    let p : s.eeprom_read_pos ≤ 68 =
      omega (arith, v.pos, (limit_pos s.eeprom_size s.eeprom_state).1) in
    elim (Bool-cases (s.eeprom_bits_written + 1 == 2 + address_bits s.eeprom_size)) [
      | inl full ↦ rw full (run_command-IsSave _ _ v.len v.bank p)
      | inr open_command ↦
          rw open_command record { len = v.len; bank = v.bank; bits = ground arith; pos = p }
    ]

eeprom_bit_at-IsSave :
    (e : EepromState) (bit : ℕ) (s : Save)
    → s.eeprom_state ≡ e
    → IsSave s
    → IsSave (eeprom_bit_at e bit s)
unfolding eeprom_bit_at data_bit
eeprom_bit_at-IsSave idle bit s h v =
    command_bit-IsSave bit s v
      (subst (λ (x : EepromState). s.eeprom_bits_written < bit_limit s.eeprom_size x) h v.bits)
eeprom_bit_at-IsSave reading_command bit s h v =
    command_bit-IsSave bit s v
      (subst (λ (x : EepromState). s.eeprom_bits_written < bit_limit s.eeprom_size x) h v.bits)
eeprom_bit_at-IsSave reading_data bit s h v = v
eeprom_bit_at-IsSave writing_data bit s h v =
    let few : s.eeprom_bits_written < 64 =
      subst (λ (x : EepromState). s.eeprom_bits_written < bit_limit s.eeprom_size x) h v.bits in
    let p : s.eeprom_read_pos ≤ 68 =
      omega (arith, v.pos, (limit_pos s.eeprom_size s.eeprom_state).1) in
    elim (Bool-cases (s.eeprom_bits_written + 1 == 64)) [
      | inl full ↦ rw full record {
        len = v.len;
        bank = v.bank;
        bits = omega (arith, (limit_pos s.eeprom_size idle).0);
        pos = p;
      }
      | inr filling ↦
          rw filling record { len = v.len; bank = v.bank; bits = rw h (ground arith); pos = rw h p }
    ]

-- The part that the flash chip leaves alone.
flash_at-same :
    (f : FlashState) (local val : ℕ) (s : Save)
    → s.flash_bank < 2
    → let t = flash_at f local val s in
      (t.data_len ≡ s.data_len)
      × (t.flash_bank < 2)
      × (t.eeprom_bits_written ≡ s.eeprom_bits_written)
      × (t.eeprom_size ≡ s.eeprom_size)
      × (t.eeprom_state ≡ s.eeprom_state)
      × (t.eeprom_read_pos ≡ s.eeprom_read_pos)
unfolding flash_at flash_command flash_erase
flash_at-same ready local val s h = ground arith
flash_at-same cmd1 local val s h = ground arith
flash_at-same cmd2 local val s h = ground arith
flash_at-same erase local val s h = ground arith
flash_at-same write local val s h = ground arith
flash_at-same bank_select local val s h = ground arith
flash_at-same id_mode local val s h = ground arith

flash_write-IsSave : (addr val : ℕ) (s : Save) → IsSave s → IsSave (flash_write addr val s)
unfolding flash_write
flash_write-IsSave addr val s v =
    let (l, b, n, z, e, p) = flash_at-same s.flash_state (low_bits 16 addr) val s v.bank in
    record { len = l ∙ v.len; bank = b; bits = rw (n, z, e) v.bits; pos = rw (e, p) v.pos }

write8_at-IsSave :
    (k : SaveType) (addr val : ℕ) (s : Save) → IsSave s → IsSave (write8_at k addr val s)
unfolding write8_at eeprom_write_bit
write8_at-IsSave no_save addr val s v = v
write8_at-IsSave sram addr val s v = record {
  len = v.len;
  bank = v.bank;
  bits = v.bits;
  pos = v.pos;
}
write8_at-IsSave flash64 addr val s v =
    flash_write-IsSave addr val _ record { len = v.len; bank = v.bank; bits = v.bits; pos = v.pos }
write8_at-IsSave flash128 addr val s v =
    flash_write-IsSave addr val _ record { len = v.len; bank = v.bank; bits = v.bits; pos = v.pos }
write8_at-IsSave eeprom addr val s v = eeprom_bit_at-IsSave s.eeprom_state (low_bits 1 val) s refl v

detect-IsSave : (rom : List ℕ) (s : Save) → IsSave s → IsSave (detect_from_rom rom s)
unfolding detect_from_rom
detect-IsSave rom s v = ground arith

-- What the bus does to the save media.
pub data Step (s : Save) : Save → Type 0 where
  detects : (rom : List ℕ) → Step s (detect_from_rom rom s)
  reads : (addr : ℕ) → Step s (read8 addr s).0
  writes : (addr val : ℕ) → Step s (write8 addr val s)

pub data Reach : Save → Type 0 where
  power_on : Reach save_new
  next : {s t : Save} → Reach s → Step s t → Reach t

Step-IsSave : {s t : Save} → Step s t → IsSave s → IsSave t
unfolding read8 write8
Step-IsSave {s} (detects rom) v = detect-IsSave rom s v
Step-IsSave {s} (reads addr) v = read8_at-IsSave s.save_type addr s v
Step-IsSave {s} (writes addr val) v = write8_at-IsSave s.save_type addr val s v

-- Whatever reads and writes follow power-on, the save media keeps 128 KB, a flash bank of 0 or 1
-- (so that every flash and SRAM index is in range), fewer command or data bits than would overrun
-- what is under way, and a read position that its byte holds.
pub Reach-IsSave : {s : Save} → Reach s → IsSave s
Reach-IsSave power_on = record {
  len = refl;
  bank = omega arith;
  bits = omega arith;
  pos = omega arith;
}
Reach-IsSave (next r e) = Step-IsSave e (Reach-IsSave r)
