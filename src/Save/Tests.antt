-- ===== src/Save/Tests.antt =====
-- The theorems on the save media at concrete inputs.
use gba_eval.Base.{ℕ, ◌+◌, ◌*◌, ◌%◌, ◌^◌, ◌<◌, ◌≤◌, ◌≡◌, ◌≢◌, refl, arith, true, update, bit_and}
use gba_eval.Save.State.{Save, flash128, eeprom, ready, save_new, reading_command}
use gba_eval.Save.Chip.{flash_write}
use gba_eval.Save.Access.{write8, detect_from_rom, flash1m_v, read8}
use gba_eval.Save.Eeprom.{send, receive, IsIdle}
use gba_eval.Save.Eeprom.RoundTrip.{eeprom_roundtrip}
use gba_eval.Save.Eeprom.StopBit.{stop_bit-rejects}
use gba_eval.Save.Serial.{eeprom_write_bit}
use gba_eval.Save.Flash.{unlock, IsReady, unlock-program, aborted_erase}
use gba_eval.Save.Inv.{IsSave, Step, Reach, Reach-IsSave}

abbrev serial : Save
serial = record save_new { save_type = eeprom }

serial-IsIdle : IsIdle serial
serial-IsIdle = record { kind = refl; size = refl; state = refl; no_bits = refl; no_command = refl }

serial_fits : 5 * 8 + 8 ≤ serial.data_len
serial_fits = omega arith

eeprom_roundtrip_example :
    let written = send 64 0x0123_4567_89ab_cdef (send 16 (2 * 2 ^ 14 + 5) serial) in
    (receive 68 (send 16 (3 * 2 ^ 14 + 5) written)).1 ≡ 0x0123_4567_89ab_cdef
eeprom_roundtrip_example =
    eeprom_roundtrip 0x0123_4567_89ab_cdef 5 serial serial-IsIdle (omega arith) serial_fits
      (omega arith)

stop_bit-rejects_example :
    let stopped = eeprom_write_bit 0 (send 64 0x1234 (send 16 (2 * 2 ^ 14 + 5) serial)) in
    let after = send 16 (3 * 2 ^ 14 + 5) stopped in
    (after.eeprom_state ≡ reading_command) × ((read8 0 after).1 ≡ 1)
stop_bit-rejects_example =
    stop_bit-rejects 0x1234 5 5 serial serial-IsIdle (omega arith) (omega arith) (omega arith)

abbrev chip : Save
chip = record save_new { save_type = flash128; flash_bank = 1 }

chip-IsReady : IsReady chip
chip-IsReady = record { state = refl; no_erase = refl }

chip_fits : chip.flash_bank * 0x1_0000 + 0x1234 % 0x1_0000 < chip.data_len
chip_fits = omega arith

unlock-program_example :
    let offset = chip.flash_bank * 0x1_0000 + 0x1234 % 0x1_0000 in
    flash_write 0x1234 0x5a (unlock 0xa0 chip) ≡ record chip {
      bytes = update chip.bytes offset (bit_and (chip.bytes offset) 0x5a);
      flash_state = ready;
    }
unlock-program_example = unlock-program 0x1234 0x5a chip chip-IsReady chip_fits

bank_fits : (chip.flash_bank + 1) * 0x1_0000 ≤ chip.data_len
bank_fits = omega arith

not_55 : ◌≢◌ {A = ℕ} 0x56 0x55
not_55 e = absurd (omega (arith, e))

aborted_erase_example :
    let aborted = flash_write 0x2aaa 0x56 (flash_write 0x5555 0xaa (unlock 0x80 chip)) in
    (aborted.flash_state ≡ ready)
    × (aborted.flash_erase_pending ≡ true)
    × ((flash_write 0x1234 0x5a (unlock 0xa0 aborted)).bytes ≡ chip.bytes)
aborted_erase_example = aborted_erase 0x1234 0x5a 0x56 chip chip-IsReady not_55

Reach-IsSave_example : IsSave (write8 0x5555 0xaa (detect_from_rom flash1m_v save_new))
Reach-IsSave_example =
    Reach-IsSave
      (Reach.next (Reach.next Reach.power_on (Step.detects flash1m_v)) (Step.writes 0x5555 0xaa))
