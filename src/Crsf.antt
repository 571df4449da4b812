-- ===== src/Crsf.antt =====
-- The CRSF telemetry parser: src/protocols/crsf_parser.h and src/protocols/crsf_parser.cpp.
pub mod Crc
pub mod Parser
pub mod Frame
pub mod Relation
pub mod Complete
pub mod Byte
pub mod Stream
pub mod Wire
pub mod Found
pub mod Delivery
pub mod Decode
pub mod Channels
pub mod LinkStats
mod Tests
