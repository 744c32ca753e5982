-- ===== src/Cpu/Thumb/Expansion.antt =====
-- Thumb instructions against the ARM instructions that they abbreviate.
pub mod Loads
pub mod Sums
pub mod Stack
