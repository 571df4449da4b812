-- ===== src/Power.antt =====
-- The power manager: src/power_manager.h and src/power_manager.cpp.
pub mod Gauge
pub mod Charge
pub mod Manager
pub mod Mode
mod Tests
