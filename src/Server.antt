-- ===== src/Server.antt =====
-- class WebServer of include/core/server.h and src/core/server.cpp.
pub mod State
pub mod Response
pub mod Api
pub mod Routing
pub mod Io
pub mod Alpn
pub mod Tls
pub mod Accept
pub mod Http2Connection
pub mod Clients
pub mod Cleanup
pub mod Collecting
pub mod ClientTask
pub mod Reading
pub mod Sending
pub mod AlpnChoice
pub mod Sweep
pub mod Handling
pub mod Users
pub mod Fetching
pub mod Framing
pub mod ResponseRead
pub mod Numbering
mod Tests
