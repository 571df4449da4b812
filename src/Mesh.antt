-- ===== src/Mesh.antt =====
-- The ESP-NOW mesh: src/espnow_mesh.h and src/espnow_mesh.cpp.
pub mod Node
pub mod Table
pub mod Lookup
pub mod Receive
pub mod Expiry
pub mod Send
pub mod Sending
pub mod Heartbeat
mod Tests
