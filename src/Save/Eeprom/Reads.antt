-- ===== src/Save/Eeprom/Reads.antt =====
-- The bits that a read command returns.
use gba_eval.Base.{
  ℕ, zero, suc, ◌+◌, ◌-◌, ◌*◌, ◌/◌, ◌%◌, ◌^◌, ◌<◌, ◌≤◌, ◌≡◌, leb, ltb, true, if◌then◌else◌, arith,
  ap, ◌∙◌, inl, inr, div-pow-suc, Bool-cases,
}
use gba_eval.Save.State.{Save, reading_data, eeprom}
use gba_eval.Save.Access.{read8, read8_at}
use gba_eval.Save.Serial.{read_eeprom}
use gba_eval.Save.Eeprom.{receive}

-- The read buffer is loaded, and `n` bits of it have been read.
pub record IsReading (n v : ℕ) (t : Save) : Type 0 where
  pub kind : t.save_type ≡ eeprom
  pub state : n < 68 → t.eeprom_state ≡ reading_data
  pub pos : t.eeprom_read_pos ≡ n
  pub buffer : t.eeprom_read_buffer ≡ v

takes_read :
    {n v : ℕ} {t : Save} → IsReading n v t → n < 68 → read8 0 t ≡ read_eeprom reading_data t
unfolding read8 read8_at
takes_read r h = rw (r.kind, r.state h)

read_state :
    {n v : ℕ} {t : Save}
    → IsReading n v t
    → n < 68
    → IsReading (suc n) v (read_eeprom reading_data t).0
unfolding read_eeprom
read_state {n} {v} {t} r h = rw r.pos (elim (Bool-cases (leb 68 (n + 1))) [
  | inl last ↦ rw last record {
    kind = r.kind;
    state = λ k. absurd (ground arith);
    pos = omega arith;
    buffer = r.buffer;
  }
  | inr more ↦
      rw more record { kind = r.kind; state = λ k. r.state h; pos = omega arith; buffer = r.buffer }
])

read_value :
    {n v : ℕ} {t : Save}
    → IsReading n v t
    → n < 68
    → (read_eeprom reading_data t).1 ≡ (if ltb n 4 then 0 else v / 2 ^ (67 - n) % 2)
unfolding read_eeprom
read_value {n} {v} {t} r h =
    rw (r.pos, r.buffer)
      (elim (Bool-cases (ltb n 4)) [
        | inl dummy ↦ rw dummy
        | inr bit ↦
            let inside : ltb (n - 4) 64 ≡ true = ground arith in
            let index : 63 - (n - 4) ≡ 67 - n = ground arith in rw (bit, inside, index)
      ])

leading : (v n : ℕ) → v < 2 ^ 64 → n < 4 → v / 2 ^ (67 - n) ≡ 0
leading v zero k h = omega arith
leading v (suc zero) k h = omega arith
leading v (suc (suc zero)) k h = omega arith
leading v (suc (suc (suc zero))) k h = omega arith
leading v (suc (suc (suc (suc n)))) k h = absurd (omega arith)

pub receive-IsReading :
    (n v : ℕ) (t : Save)
    → IsReading 0 v t
    → n ≤ 68
    → v < 2 ^ 64
    → IsReading n v (receive n t).0 × ((receive n t).1 ≡ v / 2 ^ (68 - n))
unfolding receive
receive-IsReading zero v t r h k = (r, omega arith)
receive-IsReading (suc n) v t r h k =
    let (s, w) = receive-IsReading n v t r (omega arith) k in
    let more : n < 68 = omega arith in
    let next : 68 - n ≡ suc (67 - n) = omega arith in
    let now : 68 - suc n ≡ 67 - n = omega arith in
    let digits : v / 2 ^ (67 - n) ≡ v / 2 ^ (68 - n) * 2 + v / 2 ^ (67 - n) % 2 =
      omega (arith, ap (λ (x : ℕ). v / 2 ^ x) next ∙ div-pow-suc v (67 - n)) in
    let dummy : n < 4 → v / 2 ^ (67 - n) ≡ 0 = leading v n k in
    rw (takes_read s more, now)
      (read_state s more, ground (arith, w, digits, dummy, read_value s more))
