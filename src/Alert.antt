-- ===== src/Alert.antt =====
-- The alert manager: src/alert_manager.h and src/alert_manager.cpp.
pub mod Manager
pub mod Silence
pub mod Duration
