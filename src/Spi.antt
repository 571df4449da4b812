-- ===== src/Spi.antt =====
-- The shared SPI bus: src/spi_manager.h and src/spi_manager.cpp.
pub mod Bus
pub mod Line
pub mod Lock
pub mod Session
pub mod Tests
