-- ===== src/Purge.antt =====
-- The background jobs of crates/persistence/src/lib.rs that purge projects and accounts, the
-- requests that queue them, and the loops of crates/worker/src/main.rs that run them.
pub mod Jobs
pub mod Rows
pub mod Project
pub mod Requests
pub mod Account
pub mod History
pub mod Loop
