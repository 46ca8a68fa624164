-- ===== src/Auth.antt =====
-- Sessions and the rotation of refresh tokens: packages/auth.
pub mod Session
pub mod Refresh
pub mod Rotation
mod Examples
