-- ===== src/Gpio.antt =====
-- The cartridge pins and the clock chip behind them: candidates/gba-core/src/gpio.rs.
pub mod Commands
pub mod Inv
pub mod Pulses
mod Tests
use gba_eval.Base.{
  ℕ, zero, suc, ◌+◌, ◌-◌, ◌*◌, ◌/◌, ◌%◌, ◌^◌, ◌==◌, ◌&&◌, ◌||◌, not, leb, ltb, Bool, true, false,
  if◌then◌else◌, field, low_bits, test_bit, of_bool, ◌>>>◌, ◌<<<◌, bit_and, bit_or, not16, Option,
  some, none, List, [], ◌∷◌, length, get_or,
}

pub data RtcState : Type 0 where
  idle command read_data write_data : RtcState

pub record Rtc : Type 0 where
  pub state : RtcState
  pub cmd : ℕ
  pub cmd_bits : ℕ
  pub data_bits : ℕ
  pub data_byte : ℕ
  pub data_out : List ℕ
  pub data_idx : ℕ
  pub last_sck : Bool
  pub last_cs : Bool

abbrev pub rtc_new : Rtc
rtc_new = record {
  state = idle;
  cmd = 0;
  cmd_bits = 0;
  data_bits = 0;
  data_byte = 0;
  data_out = [];
  data_idx = 0;
  last_sck = false;
  last_cs = false;
}

pub to_bcd : ℕ → ℕ
to_bcd val = bit_or ((val / 10) <<< 4) (val % 10)

pub get_rtc_time : List ℕ
get_rtc_time = to_bcd 24 ∷ to_bcd 6 ∷ to_bcd 15 ∷ to_bcd 6 ∷ to_bcd 12 ∷ to_bcd 30 ∷ to_bcd 0 ∷ []

-- `&now[4..7]`
abbrev last_three : List ℕ → List ℕ
last_three now = get_or now 4 0 ∷ get_or now 5 0 ∷ get_or now 6 0 ∷ []

-- `u8::reverse_bits`
abbrev pub reverse_bits : ℕ → ℕ
reverse_bits x =
    x % 2 * 2 ^ 7
    + x / 2 % 2 * 2 ^ 6
    + x / 2 ^ 2 % 2 * 2 ^ 5
    + x / 2 ^ 3 % 2 * 2 ^ 4
    + x / 2 ^ 4 % 2 * 2 ^ 3
    + x / 2 ^ 5 % 2 * 2 ^ 2
    + x / 2 ^ 6 % 2 * 2
    + x / 2 ^ 7 % 2

reply : ℕ → List ℕ
reply cmd_id =
    if cmd_id == 1
    then 0 ∷ []
    else if cmd_id == 2
    then get_rtc_time
    else if cmd_id == 3
    then 0x40 ∷ []
    else if cmd_id == 4
    then last_three get_rtc_time
    else []

pub process_command : Rtc → Rtc
process_command r =
    let reversed = reverse_bits r.cmd in
    if test_bit 7 reversed
    then record r {
      data_out = reply (field 4 3 reversed);
      data_idx = 0;
      data_bits = 0;
      state = read_data;
    }
    else record r { state = write_data; data_bits = 0; data_byte = 0 }

read_sio_at : RtcState → Rtc → ℕ
read_sio_at read_data r =
    if ltb r.data_idx (length r.data_out)
    then low_bits 1 (get_or r.data_out r.data_idx 0 >>> r.data_bits) <<< 1
    else 0
read_sio_at idle r = 0
read_sio_at command r = 0
read_sio_at write_data r = 0

pub read_sio : Rtc → ℕ
read_sio r = read_sio_at r.state r

-- The rising edge of SCK.
latch : RtcState → Option Bool → Rtc → Rtc
latch command (some sio_val) r =
    let r' = record r {
      cmd = bit_or r.cmd (of_bool sio_val <<< r.cmd_bits);
      cmd_bits = r.cmd_bits + 1;
    } in
    if r'.cmd_bits == 8 then process_command r' else r'
latch command none r = r
latch read_data sio r =
    if leb 8 (r.data_bits + 1)
    then record r { data_bits = 0; data_idx = r.data_idx + 1 }
    else record r { data_bits = r.data_bits + 1 }
latch write_data (some sio_val) r =
    if leb 8 (r.data_bits + 1) then record r { data_bits = 0; data_byte = 0 } else record r {
      data_byte = bit_or r.data_byte (of_bool sio_val <<< r.data_bits);
      data_bits = r.data_bits + 1;
    }
latch write_data none r = r
latch idle sio r = r

-- The edges of CS.
select : Bool → Rtc → Rtc
select cs r =
    let r₁ =
      if cs && not r.last_cs then record r { state = command; cmd = 0; cmd_bits = 0 } else r in
    let r₂ = if not cs && r.last_cs then record r₁ { state = idle } else r₁ in
    record r₂ { last_cs = cs }

pub clock : Bool → Option Bool → Bool → Rtc → Rtc
clock sck sio cs r =
    let r₁ = select cs r in
    if not cs
    then r₁
    else (let r₂ = if sck && not r.last_sck then latch r₁.state sio r₁ else r₁ in
        record r₂ { last_sck = sck })

-- `data` is a reserved word here.
pub record Gpio : Type 0 where
  pub pins : ℕ
  pub direction : ℕ
  pub control : ℕ
  pub readable : Bool
  pub rtc : Rtc

abbrev pub gpio_new : Gpio
gpio_new = record { pins = 0; direction = 0; control = 0; readable = false; rtc = rtc_new }

pub gpio_read16 : ℕ → Gpio → ℕ
gpio_read16 addr g =
    if not g.readable
    then 0
    else if low_bits 8 addr == 0xc4
    then bit_or (bit_and g.pins g.direction) (bit_and (read_sio g.rtc) (not16 g.direction))
    else if low_bits 8 addr == 0xc6
    then g.direction
    else if low_bits 8 addr == 0xc8
    then g.control
    else 0

pub gpio_write16 : ℕ → ℕ → Gpio → Gpio
gpio_write16 addr val g =
    if low_bits 8 addr == 0xc4
    then (let pins = low_bits 4 val in
        let sck_out = if test_bit 0 g.direction then test_bit 0 pins else false in
        let sio_out = if test_bit 1 g.direction then some (test_bit 1 pins) else none in
        let cs_out = if test_bit 2 g.direction then test_bit 2 pins else true in
        record g { pins = pins; rtc = clock sck_out sio_out cs_out g.rtc })
    else if low_bits 8 addr == 0xc6
    then record g { direction = low_bits 4 val }
    else if low_bits 8 addr == 0xc8
    then record g { control = low_bits 1 val; readable = test_bit 0 val }
    else g
