-- ===== src/Sio.antt =====
-- The application's Socket.IO handlers, server/internal/sio.
pub mod ChatSend
pub mod ConnectionManager
pub mod Viewport
pub mod Chat
pub mod RateLimiter
pub mod FireBatcher
pub mod Connect
pub mod FireState
pub mod Ignite
pub mod Reaper
mod Examples
