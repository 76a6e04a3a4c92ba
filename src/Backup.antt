-- ===== src/Backup.antt =====
-- packages/runtime/rust/src/backup.rs: the archive of the stores' files, its staging and its
-- installation.
pub mod Archive
pub mod Export
pub mod Staging
pub mod Install
pub mod Moving
pub mod Rollback
pub mod Restoring
mod Restored
mod Tests
