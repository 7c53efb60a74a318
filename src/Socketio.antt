-- ===== src/Socketio.antt =====
-- The Socket.IO layer, server/pkg/socketio.
pub mod Json
pub mod Packet
pub mod Room
pub mod Middleware
pub mod Namespace
pub mod Ack
pub mod Server
