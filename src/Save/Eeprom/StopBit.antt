-- ===== src/Save/Eeprom/StopBit.antt =====
-- The bit that ends a write command, which the code takes for the start of the next one.
use gba_eval.Base.{ℕ, zero, suc, ◌+◌, ◌*◌, ◌/◌, ◌%◌, ◌^◌, ◌<◌, ◌≡◌, refl, arith, ap, ◌∙◌, subst}
use gba_eval.Save.State.{Save, idle, reading_command}
use gba_eval.Save.Serial.{eeprom_write_bit, eeprom_bit_at, command_bit, run_command, read_eeprom}
use gba_eval.Save.Access.{read8, read8_at}
use gba_eval.Save.Eeprom.{send, IsIdle}
use gba_eval.Save.Eeprom.Command.{IsPartial, IsStored, send-command, send-write, loaded}

-- A leading 0 is a bit of its own.
send-leading : (n v : ℕ) (t : Save) → v < 2 ^ n → send (suc n) v t ≡ send n v (eeprom_write_bit 0 t)
unfolding send
send-leading zero v t h = ap (λ (b : ℕ). eeprom_write_bit b t) (omega arith)
send-leading (suc n) v t h =
    let half : v / 2 < 2 ^ n = omega arith in
    ap (λ (s : Save). eeprom_write_bit (v % 2) s) (send-leading n (v / 2) t half)

rejects :
    (t : Save)
    → run_command 1 t
      ≡ record t { eeprom_bits_written = 0; eeprom_command = 0; eeprom_state = idle }
unfolding run_command
rejects t = refl

-- A chip that is between commands answers a bit that comes as the first one of a command.
first_bit :
    (b : ℕ) (t : Save)
    → IsIdle t
    → let u = eeprom_write_bit b t in (u.eeprom_state ≡ reading_command) × ((read8 0 u).1 ≡ 1)
unfolding eeprom_write_bit eeprom_bit_at command_bit read8 read8_at read_eeprom
first_bit b t i = rw (i.state, i.size, i.no_bits, i.kind) (refl, refl)

-- A write command that ends, as the documentation has it, with one more bit 0 makes the read command
-- after it go unheard: the chip rejects it one bit early, takes its last bit for a new command, and
-- answers a read with the ready bit 1, whatever the word is.
pub stop_bit-rejects :
    (v a b : ℕ) (s : Save)
    → IsIdle s
    → a < 2 ^ 14
    → b < 2 ^ 14
    → v < 2 ^ 64
    → let stopped = eeprom_write_bit 0 (send 64 v (send 16 (2 * 2 ^ 14 + a) s)) in
      let after = send 16 (3 * 2 ^ 14 + b) stopped in
      (after.eeprom_state ≡ reading_command) × ((read8 0 after).1 ≡ 1)
stop_bit-rejects v a b s i h k l =
    subst (λ (u : Save). (u.eeprom_state ≡ reading_command) × ((read8 0 u).1 ≡ 1)) same
      (first_bit (c % 2) (send 16 (c / 2) t) rejected)
  where
    t : Save
    t = send 64 v (send 16 (2 * 2 ^ 14 + a) s)

    c : ℕ
    c = 3 * 2 ^ 14 + b

    last_bit : eeprom_write_bit (c % 2) (send 16 (c / 2) t) ≡ send 17 c t
    last_bit = unfold send in refl

    same : eeprom_write_bit (c % 2) (send 16 (c / 2) t) ≡ send 16 c (eeprom_write_bit 0 t)
    same = last_bit ∙ send-leading 16 c t (omega arith)

    w : IsStored v a s t
    w = send-write v a s i h l

    sent :
        IsPartial 15 (c / 2 / 2) t (send 15 (c / 2 / 2) t)
        × (send 16 (c / 2) t
            ≡ run_command (c / 2 / 2 ^ 14) (loaded (c / 2) (send 15 (c / 2 / 2) t)))
    sent = send-command (c / 2) t w.is_idle (omega arith)

    code : c / 2 / 2 ^ 14 ≡ 1
    code = omega arith

    rejected : IsIdle (send 16 (c / 2) t)
    rejected =
        rw (sent.1, code, rejects (loaded (c / 2) (send 15 (c / 2 / 2) t)))
          record {
            kind = sent.0.kind;
            size = sent.0.size;
            state = refl;
            no_bits = refl;
            no_command = refl;
          }
