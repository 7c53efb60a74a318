-- ===== src/Engine.antt =====
-- The background engines, server/internal/engine.
pub mod Progression
pub mod Cleanup
