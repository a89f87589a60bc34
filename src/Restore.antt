-- ===== src/Restore.antt =====
-- The restore jobs of crates/persistence/src/lib.rs, from the request to the new generation.
pub mod Policy
pub mod Jobs
pub mod Requests
pub mod Worker
pub mod Manifest
pub mod Snapshot
pub mod Execute
pub mod Fence
pub mod RoundTrip
pub mod Window
pub mod Stranded
pub mod Counted
pub mod Logged
pub mod Appended
pub mod Outcome
pub mod History
