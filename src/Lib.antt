-- ===== src/Lib.antt =====
-- Verification of gba-core, the Game Boy Advance emulator under candidates/gba-core/src, and
-- of the input replay of its harness.
--
-- The machine lets the processor execute an instruction on the bus, and ticks the bus for the cycles
-- that it took. The bus owns the memories, the picture unit, the sound unit, four timers, the DMA
-- channels, the save media of the cartridge with its clock chip, and the event queue. A tick runs
-- the timers for a batch of cycles, hands their overflows to the sound unit in order, and handles
-- the events that are due: the ends of the lines and their visible parts, which request interrupts
-- and trigger transfers. Each part is a module here, with its state as a record, and one function
-- for each of its operations, which takes the state and returns it.
--
-- Base: words of 8 to 64 bits as native numbers with their wrap-around written out, bit
--   operations, byte arrays, integers.
-- Cpu (cpu/mod.rs): `Cpu`, the modes, `switch_mode`, the status registers, `check_cond`.
--   Cpu.Alu (cpu/alu.rs): the barrel shifter and the adders with flags. Cpu.Pipeline: what an
--   instruction asks of the bus, `BusOps`, and `flush_pipeline`. Cpu.Arm (cpu/arm.rs) and Cpu.Thumb
--   (cpu/thumb.rs): the decoders and the instructions. Cpu.Step: `take_irq` and `step`.
-- Bus (bus.rs): `Bus` and the access times. Bus.Reads, Bus.Writes: the regions. Bus.Transfers:
--   `run_dma`, `run_immediate_dma` and the sound queues. Bus.Access: the writes with the transfers
--   that they start, and `bus_ops`, which meets the interface of the processor. Bus.Tick: `tick`.
-- Io (io.rs): the interrupt control; Io.Registers: `read16` and `write16`.
-- Ppu (ppu.rs): the registers and memories of the picture unit; Ppu.Events: `on_hblank` and
--   `on_hdraw`; Ppu.Render and Ppu.Sprites: the renderers of backgrounds and objects; Ppu.Layers:
--   `compose_layers` with the windows; Ppu.Colors: the palette and the blending; Ppu.Scanline:
--   `render_scanline` and the bitmap modes.
-- Gba (gba.rs): `run_frame`, `run_cycles` and `step_one`.
-- Timer (timer.rs): `TimerState` and `tick`, in its two loops `tick_one` and `cascade_one`.
-- Save (save.rs): Save.State is `Save`, Save.Chip the flash state machine `flash_write` with one
--   clause for each state, Save.Serial the EEPROM's `eeprom_write_bit`, Save.Access detection,
--   `read8` and `write8`.
-- Apu (apu.rs): Apu.Fifo, Apu.Square, Apu.Wave, Apu.Noise are the parts and Apu.Unit is `Apu`
--   itself, with its registers in Apu.Registers. Apu.ClockLoop is the loop that the three kinds of
--   channel share.
-- Dma (dma.rs): the registers of a channel, and `run_dma_transfer`, which the source keeps for
--   reference only; DmaMemory (dma.rs) is
--   `DmaBusAccess`, the memories that it reaches.
-- Gpio (gpio.rs): the pins and the clock chip behind them.
-- WaitStates (waitstates.rs): the table of access times and its lookup.
-- Scheduler (scheduler.rs): the event queue. The binary heap of the standard library is a list
--   from which an entry of the smallest time is taken.
-- Replay (harness/lockstep/src/replay.rs): the input of a run by frames. `sort_unstable_by_key` of
--   the standard library is a parameter, since the order of the events of one frame is not fixed.
--
-- A function that loops takes fuel and returns an option. A channel's loop has as much fuel as
-- there are cycles, and one more, which is enough since its period is positive in every state that
-- the registers can reach. The sample loop takes its fuel as an argument: one more than the number
-- of samples is enough, while its clock is not in its last 512 cycles. The loop over the overflows of two timers has one round more than there are
-- overflows, which is enough. The loop over the immediate transfers and the loop over the events take
-- fuel from outside. The loops of the machine take a number of rounds and the fuel of the
-- bus. Arithmetic that the code does in a fixed width is cut to that width, as in a release build.
--
-- The loops over the pixels of a line are functions of the pixel, and the line buffers of the picture
-- unit, which each line clears, are made anew for it.
--
-- Not modelled: the WebAssembly shim; the JSON and text formats of a replay; and the rest of the
-- harness around a reference emulator, which is input and output and scores on floating-point numbers. The stub of the BIOS is a binary file, and an argument of `skip_bios`.
pub mod Apu
pub mod Base
pub mod Bus
pub mod Cpu
pub mod Dma
pub mod DmaMemory
pub mod Gba
pub mod Gpio
pub mod Io
pub mod Ppu
pub mod Replay
pub mod Save
pub mod Scheduler
pub mod Timer
pub mod WaitStates
