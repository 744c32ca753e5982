-- ===== src/Save/Eeprom/Command.antt =====
-- What the EEPROM does with the bits of a command and of its data.
use gba_eval.Base.{
  ℕ, zero, suc, ◌+◌, ◌*◌, ◌/◌, ◌%◌, ◌^◌, ◌<◌, ◌≡◌, refl, ◌==◌, false, if◌then◌else◌, arith, ap, ◌∙◌,
  u64, u16, ◌⊎◌, subst, inl, inr,
}
use gba_eval.Save.State.{Save, idle, reading_command, writing_data, large, eeprom}
use gba_eval.Save.Serial.{
  eeprom_write_bit, eeprom_bit_at, command_bit, data_bit, push_bit, run_command, store_bytes,
}
use gba_eval.Save.Eeprom.{send, IsIdle}

-- `n` bits of a command have arrived, with the value `v`, since the state `s`.
pub record IsPartial (n v : ℕ) (s t : Save) : Type 0 where
  pub kind : t.save_type ≡ eeprom
  pub size : t.eeprom_size ≡ large
  pub reads : (t.eeprom_state ≡ idle) ⊎ (t.eeprom_state ≡ reading_command)
  pub count : t.eeprom_bits_written ≡ n
  pub value : t.eeprom_command ≡ v
  pub same_bytes : t.bytes ≡ s.bytes
  pub same_len : t.data_len ≡ s.data_len

takes_bit :
    {n v : ℕ} {s t : Save} (b : ℕ) → IsPartial n v s t → eeprom_write_bit b t ≡ command_bit b t
unfolding eeprom_write_bit eeprom_bit_at
takes_bit b p = elim p.reads [ inl e ↦ rw e | inr e ↦ rw e ]

not_full :
    {n v : ℕ} {s t : Save} (b : ℕ)
    → IsPartial n v s t
    → n < 15
    → command_bit b t ≡ record (push_bit b t) { eeprom_state = reading_command }
unfolding command_bit
not_full b p h = ground (arith, p.size, p.count)

bit-IsPartial :
    {n v : ℕ} {s t : Save} (b : ℕ)
    → IsPartial n v s t
    → n < 15
    → v < 2 ^ 63
    → IsPartial (suc n) (v * 2 + b) s (eeprom_write_bit b t)
bit-IsPartial b p h k =
    rw (takes_bit b p, not_full b p h)
      record {
        kind = p.kind;
        size = p.size;
        reads = inr refl;
        count = omega (arith, p.count);
        value = omega (arith, p.value);
        same_bytes = p.same_bytes;
        same_len = p.same_len;
      }

send-IsPartial :
    (n v : ℕ) (s : Save) → IsIdle s → n < 16 → v < 2 ^ n → v < 2 ^ 63 → IsPartial n v s (send n v s)
unfolding send
send-IsPartial zero v s i h l b = record {
  kind = i.kind;
  size = i.size;
  reads = inl i.state;
  count = i.no_bits;
  value = omega (arith, i.no_command);
  same_bytes = refl;
  same_len = refl;
}
send-IsPartial (suc n) v s i h l b =
    let half : v / 2 < 2 ^ n = omega arith in
    let whole : v / 2 * 2 + v % 2 ≡ v = omega arith in
    subst (λ (w : ℕ). IsPartial (suc n) w s (send (suc n) v s)) whole
      (bit-IsPartial (v % 2) (send-IsPartial n (v / 2) s i (omega arith) half (omega arith))
        (omega arith) (omega arith))

-- The command is complete: what it does, to a state where its address is loaded.
abbrev pub loaded : ℕ → Save → Save
loaded c t = record t {
  eeprom_state = reading_command;
  eeprom_bits_written = 16;
  eeprom_command = c;
  eeprom_address = c % 2 ^ 14;
}

completes :
    {w : ℕ} {s t : Save} (b : ℕ)
    → IsPartial 15 w s t
    → b < 2
    → w < 2 ^ 15
    → command_bit b t ≡ run_command ((w * 2 + b) / 2 ^ 14) (loaded (w * 2 + b) t)
unfolding command_bit
completes {w} b p h k =
    let c : u64 (w * 2) + b ≡ w * 2 + b = omega arith in
    let a : u16 ((w * 2 + b) % 2 ^ 14) ≡ (w * 2 + b) % 2 ^ 14 = omega arith in
    rw (p.size, p.count, p.value, c, a)

pub send-command :
    (c : ℕ) (s : Save)
    → IsIdle s
    → c < 2 ^ 16
    → IsPartial 15 (c / 2) s (send 15 (c / 2) s)
      × (send 16 c s ≡ run_command (c / 2 ^ 14) (loaded c (send 15 (c / 2) s)))
send-command c s i h =
    let p = send-IsPartial 15 (c / 2) s i (omega arith) (omega arith) (omega arith) in
    let whole : c / 2 * 2 + c % 2 ≡ c = omega arith in
    (
      p,
      subst (λ (x : ℕ). send 16 c s ≡ run_command (x / 2 ^ 14) (loaded x (send 15 (c / 2) s))) whole
          (unfold send in takes_bit (c % 2) p ∙ completes (c % 2) p (omega arith) (omega arith)),
    )

-- `n` data bits have arrived, with the value `v`, since the state `s`.
pub record IsFilling (n v a : ℕ) (s t : Save) : Type 0 where
  pub kind : t.save_type ≡ eeprom
  pub size : t.eeprom_size ≡ large
  pub reads : t.eeprom_state ≡ writing_data
  pub count : t.eeprom_bits_written ≡ n
  pub value : t.eeprom_command ≡ v
  pub address : t.eeprom_address ≡ a
  pub same_bytes : t.bytes ≡ s.bytes
  pub same_len : t.data_len ≡ s.data_len

data-takes_bit :
    {n v a : ℕ} {s t : Save} (b : ℕ)
    → IsFilling n v a s t
    → eeprom_write_bit b t ≡ (
        if suc n == 64
        then record (push_bit b t) {
          bytes = store_bytes 8 (u64 (v * 2) + b) (a * 8) s.data_len s.bytes;
          eeprom_state = idle;
          eeprom_bits_written = 0;
          eeprom_command = 0;
        }
        else push_bit b t)
unfolding eeprom_write_bit eeprom_bit_at data_bit
data-takes_bit {n} b f =
    let next : n + 1 ≡ suc n = omega arith in
    rw (f.reads, f.count, f.value, f.address, f.same_bytes, f.same_len, next)

send-IsFilling :
    (n v a : ℕ) (s t : Save)
    → IsFilling 0 0 a s t
    → n < 64
    → v < 2 ^ n
    → v < 2 ^ 63
    → IsFilling n v a s (send n v t)
unfolding send
send-IsFilling zero v a s t f h l b = subst (λ (w : ℕ). IsFilling 0 w a s t) (omega arith) f
send-IsFilling (suc n) v a s t f h l b =
    let half : v / 2 < 2 ^ n = omega arith in
    let whole : v / 2 * 2 + v % 2 ≡ v = omega arith in
    let g = send-IsFilling n (v / 2) a s t f (omega arith) half (omega arith) in
    let short : (suc n == 64) ≡ false = ground arith in
    rw (data-takes_bit (v % 2) g, short)
      record {
        kind = g.kind;
        size = g.size;
        reads = g.reads;
        count = omega (arith, g.count);
        value = omega (arith, g.value, whole);
        address = g.address;
        same_bytes = g.same_bytes;
        same_len = g.same_len;
      }

-- All 64 bits: they are stored at the address, and the next command can come.
pub record IsStored (v a : ℕ) (s t : Save) : Type 0 where
  pub is_idle : IsIdle t
  pub new_bytes : t.bytes ≡ store_bytes 8 v (a * 8) s.data_len s.bytes
  pub same_len : t.data_len ≡ s.data_len

send-IsStored :
    (v a : ℕ) (s t : Save) → IsFilling 0 0 a s t → v < 2 ^ 64 → IsStored v a s (send 64 v t)
unfolding send
send-IsStored v a s t f h =
    let g = send-IsFilling 63 (v / 2) a s t f (omega arith) (omega arith) (omega arith) in
    let whole : u64 (v / 2 * 2) + v % 2 ≡ v = omega arith in
    rw (data-takes_bit (v % 2) g) record {
      is_idle = record {
        kind = g.kind;
        size = g.size;
        state = refl;
        no_bits = refl;
        no_command = refl;
      };
      new_bytes = ap (λ (x : ℕ). store_bytes 8 x (a * 8) s.data_len s.bytes) whole;
      same_len = g.same_len;
    }

write_command :
    (a : ℕ) (t : Save)
    → run_command 2 t
      ≡ record t { eeprom_bits_written = 0; eeprom_command = 0; eeprom_state = writing_data }
unfolding run_command
write_command a t = refl

-- The write command, of the code 2.
pub send-write :
    (v a : ℕ) (s : Save)
    → IsIdle s
    → a < 2 ^ 14
    → v < 2 ^ 64
    → IsStored v a s (send 64 v (send 16 (2 * 2 ^ 14 + a) s))
send-write v a s i h k = send-IsStored v a s _ filling k
  where
    c : ℕ
    c = 2 * 2 ^ 14 + a

    sent :
        IsPartial 15 (c / 2) s (send 15 (c / 2) s)
        × (send 16 c s ≡ run_command (c / 2 ^ 14) (loaded c (send 15 (c / 2) s)))
    sent = send-command c s i (omega arith)

    code : c / 2 ^ 14 ≡ 2
    code = omega arith

    filling : IsFilling 0 0 a s (send 16 c s)
    filling =
        rw (sent.1, code, write_command a (loaded c (send 15 (c / 2) s)))
          record {
            kind = sent.0.kind;
            size = sent.0.size;
            reads = refl;
            count = refl;
            value = refl;
            address = omega arith;
            same_bytes = sent.0.same_bytes;
            same_len = sent.0.same_len;
          }
