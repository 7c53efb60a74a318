-- ===== src/Model.antt =====
-- The domain types, server/internal/model.
pub mod Fire
