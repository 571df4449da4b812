-- ===== src/Monitor.antt =====
-- The RF scanning task of src/main.cpp.
pub mod Receivers
pub mod Steady
pub mod Sweep
pub mod Escalation
mod Tests
pub mod RoundTests
