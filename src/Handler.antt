-- ===== src/Handler.antt =====
-- The HTTP handlers, server/internal/handler.
pub mod Feedback
pub mod DemoFire
