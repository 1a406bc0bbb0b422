-- ===== src/Preflight.antt =====
-- pg_dbmigrator/src/preflight.rs: what is checked before anything is moved.
pub mod Versions
pub mod Decisions
pub mod Addresses
pub mod Probes
pub mod Bundles
pub mod Ready
pub mod Checks
pub mod Servers
pub mod Steps
pub mod Offline
pub mod Online
