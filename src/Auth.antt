-- ===== src/Auth.antt =====
-- server/auth
pub mod Session
pub mod Middleware
pub mod Password
