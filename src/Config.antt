-- ===== src/Config.antt =====
-- The runtime configuration: src/config_manager.h and src/config_manager.cpp.
pub mod Storage
pub mod Manager
pub mod Import
pub mod RoundTrip
pub mod Tests
