-- ===== src/RemoteId.antt =====
-- The Remote ID detector: src/remote_id_detector.h and src/remote_id_detector.cpp.
pub mod Message
pub mod Detector
pub mod Table
pub mod Result
pub mod Cleanup
mod Tests
