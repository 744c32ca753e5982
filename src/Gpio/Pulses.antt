-- ===== src/Gpio/Pulses.antt =====
-- The byte that eight clock pulses send to the clock chip.
use native.Mathlib.Nat.{mod-lt, one-le-pow}
use gba_eval.Base.{
  ℕ, zero, suc, ◌+◌, ◌*◌, ◌/◌, ◌%◌, ◌^◌, ◌<◌, ◌≡◌, refl, ◌∙◌, ap, ◌==◌, Bool, true, false,
  if◌then◌else◌, arith, Bool-cases, inl, inr, test_bit, of_bool, bit_or, bit_or-fields, bit_or_comm,
  some,
}
use gba_eval.Gpio.{Rtc, command, process_command, clock, latch, select}

-- A clock pulse that carries one bit, with the chip selected.
pub pulse : Bool → Rtc → Rtc
pulse bit r = clock true (some bit) true (clock false (some bit) true r)

-- The lowest `n` bits of `v`, the first one lowest.
pub pulses : ℕ → ℕ → Rtc → Rtc
pulses zero v r = r
pulses (suc n) v r = pulse (test_bit n v) (pulses n v r)

-- A selected chip that takes a command.
pub record IsTaking (r : Rtc) : Type 0 where
  pub state : r.state ≡ command
  pub selected : r.last_cs ≡ true

select_same : (r : Rtc) → r.last_cs ≡ true → select true r ≡ record r { last_cs = true }
unfolding select
select_same r h = rw h refl

clock_low :
    (bit : Bool) (r : Rtc)
    → r.last_cs ≡ true
    → clock false (some bit) true r ≡ record r { last_cs = true; last_sck = false }
unfolding clock
clock_low bit r h = rw (select_same r h) refl

pulse-latch :
    (bit : Bool) (r : Rtc)
    → IsTaking r
    → pulse bit r
      ≡ record (latch command (some bit) (record r { last_cs = true; last_sck = false })) {
        last_sck = true;
      }
unfolding pulse clock
pulse-latch bit r t =
    rw
      (
        clock_low bit r t.selected,
        select_same (record r { last_cs = true; last_sck = false }) refl,
        t.state,
      )
      refl

-- The chip when it has just been selected.
abbrev pub selected_chip : Rtc → Rtc
selected_chip r = record r { state = command; cmd = 0; cmd_bits = 0; last_cs = true }

abbrev taking : ℕ → ℕ → Bool → Rtc → Rtc
taking n value sck r = record (selected_chip r) { cmd = value; cmd_bits = n; last_sck = sck }

low_digit : (n v : ℕ) → n < 8 → v / 2 ^ n % 2 * 2 ^ n + v % 2 ^ n ≡ v % 2 ^ suc n
low_digit zero v h = omega arith
low_digit (suc zero) v h = omega arith
low_digit (suc (suc zero)) v h = omega arith
low_digit (suc (suc (suc zero))) v h = omega arith
low_digit (suc (suc (suc (suc zero)))) v h = omega arith
low_digit (suc (suc (suc (suc (suc zero))))) v h = omega arith
low_digit (suc (suc (suc (suc (suc (suc zero)))))) v h = omega arith
low_digit (suc (suc (suc (suc (suc (suc (suc zero))))))) v h = omega arith
low_digit (suc (suc (suc (suc (suc (suc (suc (suc n)))))))) v h = absurd (omega arith)

-- The bit that a pulse adds.
merged : (n v : ℕ) → n < 8 → bit_or (v % 2 ^ n) (of_bool (test_bit n v) * 2 ^ n) ≡ v % 2 ^ suc n
merged n v h =
    let digit : of_bool (test_bit n v) ≡ v / 2 ^ n % 2 = ground arith in
    bit_or_comm (v % 2 ^ n) (of_bool (test_bit n v) * 2 ^ n)
    ∙ bit_or-fields n (of_bool (test_bit n v)) (v % 2 ^ n) (mod-lt v (one-le-pow n 2 (omega arith)))
    ∙ ap (λ (d : ℕ). d * 2 ^ n + v % 2 ^ n) digit
    ∙ low_digit n v h

pulse-taking :
    (n v : ℕ) (sck : Bool) (r : Rtc)
    → n < 8
    → pulse (test_bit n v) (taking n (v % 2 ^ n) sck r) ≡ (
        if suc n == 8
        then record (process_command (taking 8 (v % 2 ^ suc n) false r)) { last_sck = true }
        else taking (suc n) (v % 2 ^ suc n) true r)
pulse-taking n v sck r h =
    let next : n + 1 ≡ suc n = omega arith in
    rw
      (pulse-latch (test_bit n v) (taking n (v % 2 ^ n) sck r)
        record { state = refl; selected = refl })
      (unfold latch in
        rw (merged n v h, next)
          (elim (Bool-cases (suc n == 8)) [
            | inl full ↦ let eight : suc n ≡ 8 = ground arith in rw (full, eight) refl
            | inr more ↦ rw more refl
          ]))

pulses-taking :
    (n v : ℕ) (r : Rtc)
    → n < 8
    → (sck : Bool) × (pulses n v (selected_chip r) ≡ taking n (v % 2 ^ n) sck r)
unfolding pulses
pulses-taking zero v r h = (r.last_sck, ap (λ (x : ℕ). taking 0 x r.last_sck r) (omega arith))
pulses-taking (suc n) v r h =
    let (sck, e) = pulses-taking n v r (omega arith) in
    let more : (suc n == 8) ≡ false = ground arith in
    (true, rw (e, pulse-taking n v sck r (omega arith), more) refl)

-- Eight clock pulses on a chip that has just been selected send it the byte of their bits, the
-- first one lowest, and it does what that command says.
pub pulses-process_command :
    (v : ℕ) (r : Rtc)
    → v < 2 ^ 8
    → pulses 8 v (selected_chip r)
      ≡ record (process_command
          (record (selected_chip r) { cmd = v; cmd_bits = 8; last_sck = false })) {
            last_sck = true;
          }
unfolding pulses
pulses-process_command v r h =
    let (sck, e) = pulses-taking 7 v r (omega arith) in
    let byte : v % 2 ^ 8 ≡ v = omega arith in
    rw (e, pulse-taking 7 v sck r (omega arith))
      (ap (λ (x : ℕ). record (process_command (taking 8 x false r)) { last_sck = true }) byte)
