-- ===== src/CopySplit.antt =====
-- pg_dbmigrator/src/copy_split.rs: planning and running the direct copy of large tables, and the
-- sizes on the command line.
pub mod Pages
pub mod Cover
pub mod Run
pub mod Safety
pub mod Size
pub mod Wraps
