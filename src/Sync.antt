-- ===== src/Sync.antt =====
-- The synchronisation of a project: the push of crates/persistence/src/lib.rs, its stored
-- responses, and the pull.
pub mod Response
pub mod Item
pub mod Push
pub mod Pull
pub mod Records
pub mod Bootstrap
