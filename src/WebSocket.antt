-- ===== src/WebSocket.antt =====
-- class WebSocketHandler of include/handlers/websocket_handler.h and
-- src/handlers/websocket_handler.cpp: frames, the handshake and the table of connections.
pub mod Frame
pub mod Handshake
pub mod Connections
pub mod Session
pub mod Broadcast
pub mod Leaving
pub mod Background
pub mod Ticks
mod Tests
