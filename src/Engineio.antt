-- ===== src/Engineio.antt =====
-- The Engine.IO layer, server/pkg/engineio.
pub mod Packet
pub mod Session
pub mod Server
