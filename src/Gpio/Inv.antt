-- ===== src/Gpio/Inv.antt =====
-- The invariant of the clock chip: no shift is by eight or more.
use gba_eval.Base.{
  ℕ, ◌+◌, ◌<◌, ◌≤◌, ◌≡◌, refl, leb, ◌==◌, Bool, arith, Bool-cases, inl, inr, Option, some, none,
  low_bits, subst,
}
use gba_eval.Gpio.{
  Rtc, RtcState, idle, command, read_data, write_data, process_command, clock, latch, select, Gpio,
  gpio_new, gpio_write16,
}

abbrev pub bits_limit : RtcState → ℕ
bits_limit command = 7
bits_limit idle = 8
bits_limit read_data = 8
bits_limit write_data = 8

pub record IsRtc (r : Rtc) : Type 0 where
  pub cmd_in : r.cmd_bits ≤ bits_limit r.state
  pub data_in : r.data_bits < 8

process-IsRtc : (r : Rtc) → r.cmd_bits ≤ 8 → IsRtc (process_command r)
unfolding process_command
process-IsRtc r h = ground arith

latch-IsRtc :
    (t : RtcState) (sio : Option Bool) (r : Rtc) → r.state ≡ t → IsRtc r → IsRtc (latch t sio r)
unfolding latch
latch-IsRtc command none r e v = v
latch-IsRtc command (some b) r e v =
    let few : r.cmd_bits ≤ 7 = subst (λ (t : RtcState). r.cmd_bits ≤ bits_limit t) e v.cmd_in in
    elim (Bool-cases (r.cmd_bits + 1 == 8)) [
      | inl full ↦ rw full (process-IsRtc _ (omega arith))
      | inr more ↦ rw more record { cmd_in = rw e (ground arith); data_in = v.data_in }
    ]
latch-IsRtc read_data sio r e v = elim (Bool-cases (leb 8 (r.data_bits + 1))) [
  | inl full ↦ rw full record { cmd_in = v.cmd_in; data_in = omega arith }
  | inr more ↦ rw more record { cmd_in = v.cmd_in; data_in = ground arith }
]
latch-IsRtc write_data none r e v = v
latch-IsRtc write_data (some b) r e v = elim (Bool-cases (leb 8 (r.data_bits + 1))) [
  | inl full ↦ rw full record { cmd_in = v.cmd_in; data_in = omega arith }
  | inr more ↦ rw more record { cmd_in = v.cmd_in; data_in = ground arith }
]
latch-IsRtc idle sio r e v = v

limit-le : (t : RtcState) → bits_limit t ≤ 8
limit-le command = omega arith
limit-le idle = omega arith
limit-le read_data = omega arith
limit-le write_data = omega arith

select-IsRtc : (cs : Bool) (r : Rtc) → IsRtc r → IsRtc (select cs r)
unfolding select
select-IsRtc cs r v = ground (arith, limit-le r.state)

clock-IsRtc :
    (sck : Bool) (sio : Option Bool) (cs : Bool) (r : Rtc) → IsRtc r → IsRtc (clock sck sio cs r)
unfolding clock
clock-IsRtc sck sio cs r v =
    let w = select-IsRtc cs r v in
    let l = latch-IsRtc (select cs r).state sio (select cs r) refl w in ground arith

write-IsRtc : (addr val : ℕ) (g : Gpio) → IsRtc g.rtc → IsRtc (gpio_write16 addr val g).rtc
unfolding gpio_write16
write-IsRtc addr val g v = elim (Bool-cases (low_bits 8 addr == 0xc4)) [
  | inl here ↦ rw here (clock-IsRtc _ _ _ g.rtc v)
  | inr other ↦ rw other (elim (Bool-cases (low_bits 8 addr == 0xc6)) [
    | inl here ↦ rw here v
    | inr again ↦ rw again (elim (Bool-cases (low_bits 8 addr == 0xc8)) [
      | inl here ↦ rw here v
      | inr no_pin ↦ rw no_pin v
    ])
  ])
]

pub data Reach : Gpio → Type 0 where
  power_on : Reach gpio_new
  writes : {g : Gpio} (addr val : ℕ) → Reach g → Reach (gpio_write16 addr val g)

-- Whatever registers are written after power-on, a command that is being taken has fewer than eight
-- bits, and a data byte is read or written at one of its eight bits.
pub Reach-IsRtc : {g : Gpio} → Reach g → IsRtc g.rtc
Reach-IsRtc power_on = record { cmd_in = omega arith; data_in = omega arith }
Reach-IsRtc (writes {g} addr val r) = write-IsRtc addr val g (Reach-IsRtc r)
