-- ===== src/Save/Access.antt =====
-- Detection, reads and writes: candidates/gba-core/src/save.rs. `String::contains` of an ASCII
-- pattern on the lossy text of the ROM is a search of its bytes.
use gba_eval.Base.{
  ℕ, ◌+◌, ◌==◌, ◌&&◌, ◌||◌, Bool, true, false, if◌then◌else◌, u32, low_bits, List, [], ◌∷◌, update,
}
use gba_eval.Save.State.{SaveType, Save, no_save, sram, flash64, flash128, eeprom}
use gba_eval.Save.Serial.{eeprom_write_bit, read_eeprom}
use gba_eval.Save.Chip.{flash_write, read_flash}

-- The bytes of the search patterns, `V` at the end of each.
abbrev pub is_prefix : List ℕ → List ℕ → Bool
is_prefix [] bytes = true
is_prefix (p ∷ ps) [] = false
is_prefix (p ∷ ps) (b ∷ bs) = p == b && is_prefix ps bs

abbrev pub contains : List ℕ → List ℕ → Bool
contains pattern [] = is_prefix pattern []
contains pattern (b ∷ bs) = is_prefix pattern (b ∷ bs) || contains pattern bs

abbrev pub flash1m_v : List ℕ
flash1m_v = 70 ∷ 76 ∷ 65 ∷ 83 ∷ 72 ∷ 49 ∷ 77 ∷ 95 ∷ 86 ∷ []

abbrev pub flash512_v : List ℕ
flash512_v = 70 ∷ 76 ∷ 65 ∷ 83 ∷ 72 ∷ 53 ∷ 49 ∷ 50 ∷ 95 ∷ 86 ∷ []

abbrev pub flash_v : List ℕ
flash_v = 70 ∷ 76 ∷ 65 ∷ 83 ∷ 72 ∷ 95 ∷ 86 ∷ []

abbrev pub sram_v : List ℕ
sram_v = 83 ∷ 82 ∷ 65 ∷ 77 ∷ 95 ∷ 86 ∷ []

abbrev pub eeprom_v : List ℕ
eeprom_v = 69 ∷ 69 ∷ 80 ∷ 82 ∷ 79 ∷ 77 ∷ 95 ∷ 86 ∷ []

unfoldable pub detect_from_rom : List ℕ → Save → Save
detect_from_rom rom s =
    if contains flash1m_v rom
    then record s { save_type = flash128; flash_manufacturer = 0x62; flash_device = 0x13 }
    else if contains flash512_v rom || contains flash_v rom
    then record s { save_type = flash64; flash_manufacturer = 0x32; flash_device = 0x1b }
    else if contains sram_v rom
    then record s { save_type = sram }
    else if contains eeprom_v rom
    then record s { save_type = eeprom }
    else record s { save_type = no_save }

unfoldable pub read8_at : SaveType → ℕ → Save → Save × ℕ
read8_at sram addr s = (s, s.bytes (low_bits 15 addr))
read8_at flash64 addr s =
    (record s { flash_read_count = u32 (s.flash_read_count + 1) }, read_flash addr s)
read8_at flash128 addr s =
    (record s { flash_read_count = u32 (s.flash_read_count + 1) }, read_flash addr s)
read8_at eeprom addr s = read_eeprom s.eeprom_state s
read8_at no_save addr s = (s, 0xff)

unfoldable pub read8 : ℕ → Save → Save × ℕ
read8 addr s = read8_at s.save_type addr s

unfoldable pub write8_at : SaveType → ℕ → ℕ → Save → Save
write8_at sram addr val s = record s { bytes = update s.bytes (low_bits 15 addr) val }
write8_at flash64 addr val s =
    flash_write addr val (record s { flash_write_count = u32 (s.flash_write_count + 1) })
write8_at flash128 addr val s =
    flash_write addr val (record s { flash_write_count = u32 (s.flash_write_count + 1) })
write8_at eeprom addr val s = eeprom_write_bit (low_bits 1 val) s
write8_at no_save addr val s = s

unfoldable pub write8 : ℕ → ℕ → Save → Save
write8 addr val s = write8_at s.save_type addr val s
