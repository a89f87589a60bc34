-- ===== src/Store.antt =====
-- The database behind crates/persistence/src/lib.rs: the tables of migrations/0001_init.sql that
-- the modelled operations use, with their columns, and the errors of the operations.
pub mod Schema
pub mod Errors
pub mod Transaction
