-- ===== src/Apu.antt =====
-- The sound unit: candidates/gba-core/src/apu.rs. `Unit` is the unit as a whole and
-- `Registers` its registers; the other modules are its parts.
pub mod ClockLoop
pub mod Fifo
pub mod Square
pub mod Wave
pub mod Noise
pub mod Unit
pub mod Registers
mod Tests
