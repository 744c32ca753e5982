-- ===== src/Save/State.antt =====
-- The state of the save media: candidates/gba-core/src/save.rs, `Save`. `bytes` is its `data`,
-- `data_len` the length of it.
use gba_eval.Base.{ℕ, ◌*◌, Bool, false}

pub data SaveType : Type 0 where
  no_save sram flash64 flash128 eeprom : SaveType

pub data FlashState : Type 0 where
  ready cmd1 cmd2 erase write bank_select id_mode : FlashState

pub data EepromState : Type 0 where
  idle reading_command reading_data writing_data : EepromState

pub data EepromSize : Type 0 where
  small large : EepromSize

pub record Save : Type 0 where
  pub save_type : SaveType
  pub data_len : ℕ
  pub bytes : ℕ → ℕ
  pub flash_state : FlashState
  pub flash_bank : ℕ
  pub flash_id_mode : Bool
  pub flash_erase_pending : Bool
  pub flash_manufacturer : ℕ
  pub flash_device : ℕ
  pub flash_read_count : ℕ
  pub flash_write_count : ℕ
  pub eeprom_state : EepromState
  pub eeprom_bits_written : ℕ
  pub eeprom_command : ℕ
  pub eeprom_address : ℕ
  pub eeprom_read_buffer : ℕ
  pub eeprom_read_pos : ℕ
  pub eeprom_size : EepromSize

abbrev pub save_new : Save
save_new = record {
  save_type = no_save;
  data_len = 128 * 1024;
  bytes = λ i. 0xff;
  flash_state = ready;
  flash_bank = 0;
  flash_id_mode = false;
  flash_erase_pending = false;
  flash_manufacturer = 0x62;
  flash_device = 0x13;
  flash_read_count = 0;
  flash_write_count = 0;
  eeprom_state = idle;
  eeprom_bits_written = 0;
  eeprom_command = 0;
  eeprom_address = 0;
  eeprom_read_buffer = 0;
  eeprom_read_pos = 0;
  eeprom_size = large;
}
