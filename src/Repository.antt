-- ===== src/Repository.antt =====
-- persistence/sqlite_repository.py: the tables, and the operations by the tables that they change.
pub mod Schema
pub mod Tables
pub mod Ledger
pub mod Pets
pub mod Interactions
pub mod Executions
pub mod Samples
pub mod Dialogs
