-- ===== src/Web.antt =====
-- The web server: src/web_server.h and src/web_server.cpp.
pub mod Server
pub mod Body
pub mod Routes
pub mod Guard
pub mod Kept
pub mod Upload
pub mod Tests
