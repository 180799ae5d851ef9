-- ===== src/Http2.antt =====
-- include/handlers/http2_handler.h and src/handlers/http2_handler.cpp.
pub mod Termination
pub mod Streaming
pub mod Priorities
pub mod Flushing
pub mod LostHeaders
pub mod State
pub mod Requests
pub mod Callbacks
pub mod Transport
pub mod Session
pub mod Logging
pub mod Types
pub mod Output
pub mod Priority
mod Tests
