-- ===== src/Save/Serial.antt =====
-- The serial EEPROM: candidates/gba-core/src/save.rs, `eeprom_write_bit` and its part of `read8`.
use gba_eval.Base.{
  ℕ, zero, suc, ◌+◌, ◌-◌, ◌*◌, ◌==◌, leb, ltb, if◌then◌else◌, u16, u64, low_bits, field, ◌>>>◌,
  ◌<<<◌, update,
}
use gba_eval.Save.State.{
  EepromState, EepromSize, Save, idle, reading_command, reading_data, writing_data, small, large,
}

-- The next bit of the read buffer, four dummy bits first.
unfoldable pub read_eeprom : EepromState → Save → Save × ℕ
read_eeprom reading_data s =
    let pos = s.eeprom_read_pos in
    let bit =
      if ltb pos 4
      then 0
      else if ltb (pos - 4) 64
      then low_bits 1 (s.eeprom_read_buffer >>> (63 - (pos - 4)))
      else 0 in
    let s' = record s { eeprom_read_pos = pos + 1 } in
    (if leb 68 (pos + 1) then record s' { eeprom_state = idle } else s', bit)
read_eeprom idle s = (s, 1)
read_eeprom reading_command s = (s, 1)
read_eeprom writing_data s = (s, 1)

abbrev pub address_bits : EepromSize → ℕ
address_bits small = 6
address_bits large = 14

-- The first `n` bytes at `byte_addr`, the first one highest; none beyond the end.
unfoldable pub load_bytes : ℕ → ℕ → Save → ℕ
load_bytes zero byte_addr s = 0
load_bytes (suc i) byte_addr s =
    let val = load_bytes i byte_addr s in
    let idx = byte_addr + i in
    if ltb idx s.data_len then u64 (val <<< 8) + s.bytes idx else u64 (val <<< 8)

-- The first `n` bytes of `command` written at `byte_addr`.
unfoldable pub store_bytes : ℕ → ℕ → ℕ → ℕ → (ℕ → ℕ) → ℕ → ℕ
store_bytes zero command byte_addr len d = d
store_bytes (suc i) command byte_addr len d =
    let d' = store_bytes i command byte_addr len d in
    let idx = byte_addr + i in
    if ltb idx len then update d' idx (field (56 - i * 8) 8 command) else d'

-- What a complete command does.
unfoldable pub run_command : ℕ → Save → Save
run_command cmd s =
    let s' = record s { eeprom_bits_written = 0; eeprom_command = 0 } in
    if low_bits 2 cmd == 3
    then record s' {
      eeprom_read_buffer = load_bytes 8 (s.eeprom_address * 8) s;
      eeprom_read_pos = 0;
      eeprom_state = reading_data;
    }
    else if low_bits 2 cmd == 2
    then record s' { eeprom_state = writing_data }
    else record s' { eeprom_state = idle }

-- `(command << 1) | bit`, and the count.
abbrev pub push_bit : ℕ → Save → Save
push_bit bit s = record s {
  eeprom_command = u64 (s.eeprom_command <<< 1) + bit;
  eeprom_bits_written = s.eeprom_bits_written + 1;
}

unfoldable pub command_bit : ℕ → Save → Save
command_bit bit s =
    let s' = record (push_bit bit s) { eeprom_state = reading_command } in
    let addr_bits = address_bits s.eeprom_size in
    if s'.eeprom_bits_written == 2 + addr_bits
    then run_command (s'.eeprom_command >>> addr_bits)
        (record s' { eeprom_address = u16 (low_bits addr_bits s'.eeprom_command) })
    else s'

unfoldable pub data_bit : ℕ → Save → Save
data_bit bit s =
    let s' = push_bit bit s in
    if s'.eeprom_bits_written == 64
    then record s' {
      bytes = store_bytes 8 s'.eeprom_command (s.eeprom_address * 8) s.data_len s.bytes;
      eeprom_state = idle;
      eeprom_bits_written = 0;
      eeprom_command = 0;
    }
    else s'

unfoldable pub eeprom_bit_at : EepromState → ℕ → Save → Save
eeprom_bit_at idle bit s = command_bit bit s
eeprom_bit_at reading_command bit s = command_bit bit s
eeprom_bit_at writing_data bit s = data_bit bit s
eeprom_bit_at reading_data bit s = s

unfoldable pub eeprom_write_bit : ℕ → Save → Save
eeprom_write_bit bit s = eeprom_bit_at s.eeprom_state bit s
