-- ===== src/Auth.antt =====
-- internal/core/auth: who may sign in.
pub mod LoginAttempts
