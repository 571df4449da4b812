-- ===== src/Mavlink.antt =====
-- The MAVLink v1 parser: src/protocols/mavlink_parser.h and src/protocols/mavlink_parser.cpp.
pub mod Crc
pub mod Parser
pub mod Frame
pub mod Complete
pub mod Byte
pub mod Stream
pub mod Wire
pub mod Delivery
pub mod Decode
pub mod Received
mod Tests
