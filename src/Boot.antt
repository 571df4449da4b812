-- ===== src/Boot.antt =====
-- The start of the firmware: `setup` of src/main.cpp.
pub mod Setup
pub mod Configured
pub mod Protected
pub mod Tests
