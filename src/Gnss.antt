-- ===== src/Gnss.antt =====
-- The GNSS receiver: src/gps_module.h and src/gps_module.cpp.
pub mod Receiver
pub mod Fences
pub mod Tests
