-- ===== src/Server.antt =====
-- src/server: the rules of the line protocol and of the runtime.
pub mod Utf8
pub mod Lines
pub mod Json
pub mod Protocol
pub mod Answer
pub mod Request
pub mod Frames
pub mod Output
pub mod Stream
pub mod Service
pub mod Runtime
