-- ===== src/Firmware.antt =====
-- The running firmware: its state, what its tasks and callbacks call, and what holds at all times.
pub mod Screen
pub mod World
pub mod Scanning
pub mod Duties
pub mod Calls
pub mod Sound
pub mod Observing
pub mod Attending
pub mod Safety
pub mod Stealth
pub mod Messages
pub mod Private
pub mod Start
pub mod Reached
mod Tests
