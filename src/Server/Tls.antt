-- ===== src/Server/Tls.antt =====
-- TLS in src/core/server.cpp. What OpenSSL's functions return is given as arguments and events; the
-- calls that make and free its objects are results.
pub mod Context
pub mod Records
pub mod Http
pub mod Keeping
pub mod Connection
pub mod Ownership
pub mod Transfer
pub mod SamePages
mod Tests
