-- ===== src/Rx5808.antt =====
-- The 5.8 GHz receiver: src/drivers/rx5808.h and src/drivers/rx5808.cpp.
pub mod Driver
pub mod Channel
