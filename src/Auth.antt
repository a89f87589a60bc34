-- ===== src/Auth.antt =====
-- The sessions of crates/persistence/src/lib.rs: login, the rotation of refresh tokens with its
-- grace window, reuse, logout and the check of an access token.
pub mod Rows
pub mod Rotation
pub mod Sessions
pub mod History
