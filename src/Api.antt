-- ===== src/Api.antt =====
-- server/api
pub mod Http
pub mod Session
pub mod Users
pub mod Ledger
pub mod Backup
pub mod Routes
