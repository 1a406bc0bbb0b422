-- ===== src/Verify.antt =====
-- pg_dbmigrator/src/verify.rs: the comparison of row counts and its report.
pub mod Report
pub mod Counts
pub mod Parallel
pub mod Agreement
