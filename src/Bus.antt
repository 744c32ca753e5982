-- ===== src/Bus.antt =====
-- The memory bus: candidates/gba-core/src/bus.rs. Its memories are functions on their indices, and
-- the cartridge a list of bytes. The parts that the bus owns are the records of their modules.
pub mod Reads
pub mod Writes
pub mod Transfers
pub mod Access
pub mod Tick
mod Tests
use gba_eval.Base.{
  ℕ, ◌+◌, ◌-◌, ◌*◌, ◌/◌, ◌%◌, ◌^◌, Bool, true, false, if◌then◌else◌, List, [], ◌∷◌, u32, ltb, min,
  Option, some, none, length, get_or,
}
use gba_eval.Apu.Unit.{Apu, apu_new}
use gba_eval.Dma.{DmaChannel, channel_default}
use gba_eval.Gpio.{Gpio, gpio_new}
use gba_eval.Io.{IoRegs, io_new}
use gba_eval.Ppu.{Ppu, ppu_new}
use gba_eval.Save.Access.{detect_from_rom, contains}
use gba_eval.Save.State.{Save, save_new}
use gba_eval.Scheduler.{Scheduler, scheduler_new}
use gba_eval.Timer.{Timers, timers_new}
use gba_eval.WaitStates.{WaitStates, wait_states_new, get, write_waitcnt, word, sequential}

abbrev bios_size : ℕ
bios_size = 0x4000

pub record Bus : Type 0 where
  pub bios : ℕ → ℕ
  pub ewram : ℕ → ℕ
  pub iwram : ℕ → ℕ
  pub rom : List ℕ
  pub sram : ℕ → ℕ
  pub save : Save
  pub ppu : Ppu
  pub io : IoRegs
  pub dma : ℕ → DmaChannel
  pub apu : Apu
  pub timers : Timers
  pub gpio : Gpio
  pub sched : Scheduler
  pub open_bus : ℕ
  pub bios_last_fetch : ℕ
  pub dma_running : Bool
  pub pending_extra_cycles : ℕ
  pub code_sequential : Bool
  pub waitstates : WaitStates

abbrev pub bus_new : Bus
bus_new = record {
  bios = λ i. 0;
  ewram = λ i. 0;
  iwram = λ i. 0;
  rom = [];
  sram = λ i. 0xff;
  save = save_new;
  ppu = ppu_new;
  io = io_new;
  dma = λ i. channel_default;
  apu = apu_new;
  timers = timers_new;
  gpio = gpio_new;
  sched = scheduler_new;
  open_bus = 0;
  bios_last_fetch = 0xe129_f000;
  dma_running = false;
  pending_extra_cycles = 0;
  code_sequential = false;
  waitstates = wait_states_new;
}

-- The bus after a step that may not come to an end.
infixl 5 ◌>>=◌
abbrev pub ◌>>=◌ : Option Bus → (Bus → Option Bus) → Option Bus
none >>= f = none
some bus >>= f = f bus

pub load_bios : List ℕ → Bus → Bus
load_bios image bus =
    let n = min (length image) bios_size in
    record bus { bios = λ i. if ltb i n then get_or image i 0 else bus.bios i }

-- The bytes of the text that the ROM of a game with a clock holds.
abbrev rtc_v : List ℕ
rtc_v = 82 ∷ 84 ∷ 67 ∷ 95 ∷ 86 ∷ []

pub load_rom : List ℕ → Bus → Bus
load_rom image bus = record bus {
  save = detect_from_rom image bus.save;
  gpio =
      if contains rtc_v image then record bus.gpio { readable = true; control = 1 } else bus.gpio;
  rom = image;
}

pub on_waitcnt_write : Bus → Bus
on_waitcnt_write bus = record bus { waitstates = write_waitcnt bus.io.waitcnt bus.waitstates }

-- The cycles of a data access beyond the first, which ends a sequence of fetches.
pub charge_data : ℕ → Bool → Bus → Bus
charge_data addr is_word bus =
    let total = get addr (if is_word then word else 0) bus.waitstates in
    record bus {
      code_sequential = false;
      pending_extra_cycles = u32 (bus.pending_extra_cycles + (total - 1));
    }

-- The same for a fetch, which starts or goes on with a sequence.
pub charge_code : ℕ → Bool → Bus → Bus
charge_code addr is_word bus =
    let mode = (if bus.code_sequential then sequential else 0) + (if is_word then word else 0) in
    let total = get addr mode bus.waitstates in
    record bus {
      code_sequential = true;
      pending_extra_cycles = u32 (bus.pending_extra_cycles + (total - 1));
    }
