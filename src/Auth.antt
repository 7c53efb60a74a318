-- ===== src/Auth.antt =====
-- Authentication, server/internal/auth.
pub mod Token
