-- ===== src/Resume.antt =====
-- pg_dbmigrator/src/resume.rs: the resume token, its file and the hash of the configuration.
pub mod Token
pub mod Hash
pub mod File
pub mod Order
pub mod Saved
