-- ===== src/Bus/Access.antt =====
-- The writes as the processor makes them: candidates/gba-core/src/bus.rs. A write of a DMA control
-- register returns when the transfers that it has started are over; `none` means that the fuel for
-- those ran out.
pub mod Memory
pub mod Nested
pub mod Copy
pub mod Channel
use gba_eval.Base.{
  ℕ, ◌+◌, ◌*◌, ◌/◌, ◌%◌, ◌^◌, Bool, true, false, if◌then◌else◌, Option, some, none, u16, ◌>>>◌,
  ◌!=◌, bit_and,
}
use gba_eval.Apu.Registers.{write_fifo_32}
use gba_eval.Cpu.Pipeline.{BusOps}
use gba_eval.Ppu.{align2, align4}
use gba_eval.Bus.{Bus, ◌>>=◌, charge_data}
use gba_eval.Bus.Reads.{bus_read8, bus_read16, bus_read32, fetch16, fetch32}
use gba_eval.Bus.Writes.{Written, write8_inner, write16_inner, at_fifo}
use gba_eval.Bus.Transfers.{run_immediate_dma}

abbrev pub settle : ℕ → Written → Option Bus
settle fuel (bus, start) = if start then run_immediate_dma fuel bus else some bus

pub bus_write8 : ℕ → ℕ → ℕ → Bus → Option Bus
bus_write8 fuel addr val bus = settle fuel (write8_inner addr val (charge_data addr false bus))

pub bus_write16 : ℕ → ℕ → ℕ → Bus → Option Bus
bus_write16 fuel addr val bus =
    settle fuel (write16_inner addr val (charge_data (align2 addr) false bus))

pub bus_write32 : ℕ → ℕ → ℕ → Bus → Option Bus
bus_write32 fuel addr₀ val bus₀ =
    let addr = align4 addr₀ in
    let bus = charge_data addr true bus₀ in
    if at_fifo addr
    then some (record bus { apu = write_fifo_32 addr val bus.apu })
    else settle fuel (write16_inner addr (u16 val) bus) >>= λ b.
        settle fuel (write16_inner (addr + 2) (u16 (val >>> 16)) b)

-- A read of a bus that has not hung.
abbrev reading : (Bus → ℕ × Bus) → Option Bus → ℕ × Option Bus
reading f none = (0, none)
reading f (some bus) = let (v, bus') = f bus in (v, some bus')

abbrev asking : (Bus → Bool) → Option Bus → Bool
asking f none = false
asking f (some bus) = f bus

abbrev changing : (Bus → Bus) → Option Bus → Option Bus
changing f none = none
changing f (some bus) = some (f bus)

-- What the processor asks of the bus, met by this bus.
pub bus_ops : ℕ → BusOps (Option Bus)
unfolding bus_write8 bus_write16 bus_write32
bus_ops fuel = record {
  read8 = λ addr pc. reading (bus_read8 addr pc);
  read16 = λ addr pc. reading (bus_read16 addr pc);
  read32 = λ addr pc. reading (bus_read32 addr pc);
  write8 = λ addr val b. b >>= bus_write8 fuel addr val;
  write16 = λ addr val b. b >>= bus_write16 fuel addr val;
  write32 = λ addr val b. b >>= bus_write32 fuel addr val;
  fetch16 = λ addr. reading (fetch16 addr);
  fetch32 = λ addr. reading (fetch32 addr);
  break_sequence = changing (λ bus. record bus { code_sequential = false });
  requested = asking (λ bus. bit_and bus.io.ie bus.io.if_ != 0);
  enabled = asking (λ bus. bus.io.ime);
}
