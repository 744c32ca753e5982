-- ===== src/Save.antt =====
-- The save media of the cartridge: candidates/gba-core/src/save.rs.
pub mod State
pub mod Serial
pub mod Chip
pub mod Access
pub mod Eeprom
pub mod Flash
pub mod Inv
mod Tests
