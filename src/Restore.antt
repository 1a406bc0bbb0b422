-- ===== src/Restore.antt =====
-- pg_dbmigrator/src/restore.rs: sections, the classification and the summary of the errors that
-- `pg_restore` prints, and its command line.
pub mod Errors
pub mod Command
pub mod Summary
pub mod Sections
