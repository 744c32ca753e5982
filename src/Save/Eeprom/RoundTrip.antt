-- ===== src/Save/Eeprom/RoundTrip.antt =====
-- What a write command stores, a read command returns.
use gba_eval.Base.{ℕ, zero, suc, ◌+◌, ◌*◌, ◌/◌, ◌%◌, ◌^◌, ◌<◌, ◌≤◌, ◌≡◌, refl, arith, ap, ◌∙◌}
use gba_eval.Save.State.{Save, reading_data}
use gba_eval.Save.Serial.{run_command, load_bytes}
use gba_eval.Save.Eeprom.{send, receive, IsIdle}
use gba_eval.Save.Eeprom.Command.{IsPartial, IsStored, send-command, send-write, loaded}
use gba_eval.Save.Eeprom.Bytes.{stored, load-stored}
use gba_eval.Save.Eeprom.Reads.{IsReading, receive-IsReading}

read_command :
    (t : Save)
    → run_command 3 t ≡ record t {
      eeprom_bits_written = 0;
      eeprom_command = 0;
      eeprom_read_buffer = load_bytes 8 (t.eeprom_address * 8) t;
      eeprom_read_pos = 0;
      eeprom_state = reading_data;
    }
unfolding run_command
read_command t = refl

load_same :
    (n b : ℕ) (s t : Save)
    → t.bytes ≡ s.bytes
    → t.data_len ≡ s.data_len
    → load_bytes n b t ≡ load_bytes n b s
unfolding load_bytes
load_same zero b s t e l = refl
load_same (suc n) b s t e l = rw (load_same n b s t e l, e, l)

-- A read command of the address `a`, of the code 3, after which the buffer holds its word.
send-read :
    (v a : ℕ) (s : Save)
    → IsIdle s
    → a < 2 ^ 14
    → load_bytes 8 (a * 8) s ≡ v
    → IsReading 0 v (send 16 (3 * 2 ^ 14 + a) s)
send-read v a s i h e =
    rw (sent.1, code, read_command (loaded c t))
      record {
        kind = sent.0.kind;
        state = λ k. refl;
        pos = refl;
        buffer =
            ap (λ (x : ℕ). load_bytes 8 (x * 8) (loaded c t)) addr
            ∙ load_same 8 (a * 8) s (loaded c t) sent.0.same_bytes sent.0.same_len
            ∙ e;
      }
  where
    c : ℕ
    c = 3 * 2 ^ 14 + a

    t : Save
    t = send 15 (c / 2) s

    sent : IsPartial 15 (c / 2) s t × (send 16 c s ≡ run_command (c / 2 ^ 14) (loaded c t))
    sent = send-command c s i (omega arith)

    code : c / 2 ^ 14 ≡ 3
    code = omega arith

    addr : c % 2 ^ 14 ≡ a
    addr = omega arith

-- An EEPROM word comes back: from between commands, the 16 bits of a write command and its 64 data
-- bits, then the 16 bits of a read command of the same address, make the next 68 reads return the
-- word, four zero bits first.
pub eeprom_roundtrip :
    (v a : ℕ) (s : Save)
    → IsIdle s
    → a < 2 ^ 14
    → a * 8 + 8 ≤ s.data_len
    → v < 2 ^ 64
    → let written = send 64 v (send 16 (2 * 2 ^ 14 + a) s) in
      (receive 68 (send 16 (3 * 2 ^ 14 + a) written)).1 ≡ v
eeprom_roundtrip v a s i h fits k =
    (receive-IsReading 68 v (send 16 (3 * 2 ^ 14 + a) t) (send-read v a t w.is_idle h word)
      (omega arith) k).1
    ∙ omega arith
  where
    t : Save
    t = send 64 v (send 16 (2 * 2 ^ 14 + a) s)

    w : IsStored v a s t
    w = send-write v a s i h k

    word : load_bytes 8 (a * 8) t ≡ v
    word =
        load-stored v (a * 8) t k (omega (arith, w.same_len))
          (λ j l. rw w.new_bytes (stored 8 j v (a * 8) s.data_len s.bytes l fits))
