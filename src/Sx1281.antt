-- ===== src/Sx1281.antt =====
-- The 2.4 GHz receiver: src/drivers/sx1281.h and src/drivers/sx1281.cpp.
pub mod Driver
