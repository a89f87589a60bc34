-- ===== src/Tests.antt =====
-- Runs of the modelled operations on small states, and the properties at such states.
mod Push
mod Stored
mod Auth
mod Restore
mod Process
mod Pull
mod Purge
pub mod Keys
mod Cleanup
mod Bootstrap
mod Shared
pub mod Data
