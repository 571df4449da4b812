-- ===== src/Cc1101.antt =====
-- The sub-GHz receiver: src/drivers/cc1101.h and src/drivers/cc1101.cpp.
pub mod Registers
pub mod Radio
pub mod Scan
pub mod Safety
pub mod Wires
pub mod Session
pub mod Spectrum
pub mod Tuning
pub mod Receive
mod Tests
pub mod Owner
