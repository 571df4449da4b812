-- ===== src/Logger.antt =====
-- The log on the SD card: src/data_logger.h and src/data_logger.cpp.
pub mod Card
pub mod Rotation
pub mod Entries
pub mod Export
pub mod Balance
pub mod Oldest
pub mod Tests
