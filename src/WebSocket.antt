-- ===== src/WebSocket.antt =====
-- src/websocket.rs: WebSocket frames in both directions.
pub mod Handshake
pub mod Writer
pub mod Frames
pub mod Written
mod Runs
pub mod Reader
pub mod Messages
