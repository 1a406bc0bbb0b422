-- ===== src/Lib.antt =====
-- pg_dbmigrator migrates a PostgreSQL database: offline by pg_dump and pg_restore, online by a
-- logical replication slot, a dump of its snapshot and a subscription on the target until the
-- operator cuts over. This library models the driver and the parts that it calls, and proves what a
-- user relies on.
--
-- The parts, their files here, and the code that they model (under pg_dbmigrator/src):
--   Error, Progress: error.rs and progress.rs, the values that the other parts exchange.
--   CommandLine: bin/pg_dbmigrator/args.rs, the options and the configuration that they stand for.
--   Config: config.rs, the configuration, its validation (Validate) and the addresses (Endpoint).
--   Resume: resume.rs, the token of completed stages (Token), its file (File), the hash of the
--     configuration (Hash).
--   Dump, Restore: dump.rs and restore.rs, the requests and command lines, the restore's error
--     summary.
--   CopySplit: copy_split.rs, page ranges (Pages), the direct copy (Run), sizes (Size).
--   Maintenance: analyze.rs, VACUUM ANALYZE before the dump and ANALYZE after the restore.
--   Cutover: cutover.rs, the operator's handle and the lag sampler.
--   Apply: native_apply.rs, the apply loop (Loop), the subscription around it (Teardown), the wait
--     for the slot (Slot) and the removal of what a run leaves behind (Stale).
--   Verify: verify.rs, the report (Report), selecting tables and counting rows in workers (Counts).
--   Publication: preflight.rs, the exclusion lists and the publication that they shape.
--   Preflight: preflight.rs, the checks before a migration: versions (Versions), what is decided
--     without asking (Decisions), the maintenance address (Addresses), what asks the tools and the
--     servers (Probes), and the bundles of both modes (Bundles).
--   Sequences: sequences.rs, the values that are set on the target at cutover (Effects, Synced).
--   Snapshot: snapshot.rs, the address and the preparation of the replication slot.
--   Tls: tls.rs, the mode of a connection string and the connector for it.
--   Orchestrator: orchestrator.rs, Migrator::run and its stages, which call all of the above.
--     Together relates the dump to the direct copy of the tables that it leaves out.
--   Base: strings as lists of scalar values, numbers and lists that the parts share.
--   Examples: concrete inputs.
--
-- How state and effects are modelled. A run of the driver is an action on a trace: every call of a
-- tool or a server, every save of the token and every report is an entry, and what the outside
-- answers is a record of functions of the trace so far (Orchestrator.Trace.World), so an answer may
-- depend on all that has happened; the cancellation token is such a function too. The apply loop is
-- a function of what each iteration sees (Apply.Loop.Tick). Durations are milliseconds, LSNs and
-- byte counts are natural numbers with the wrap-around of their width written out where the code
-- can reach it.
--
-- Fuel. split_pages has as much fuel as the table has pages, which is enough since each round but
-- the last moves on by a page. The chunks of a list have as much fuel as the list has entries, which
-- is enough since each chunk takes one at least (Verify.Parallel). The apply loop is structural on
-- the iterations that it is given; a phase whose iterations are used up is still running, and so is
-- a migration in it (Orchestrator.Trace.waiting). The wait for a slot is structural on its polls, of
-- which 61 that are half a second apart are enough.
--
-- What is not modelled: bin/pg_dbmigrator/main.rs, clap, the tunables of the replication
-- connection, the rustls connector, the spawning of processes; the SQL texts of native_apply.rs,
-- whose statements are data here; log lines; the interleaving of the workers that count rows,
-- whose results are joined in the order of their slices, and of the probes that run at the same
-- time, which are listed in the order of the macro. The world answers how a wait for the slot
-- ends in a run. External code (the hasher, serde_json, url, tokio_postgres, pg_walstream, the
-- file system, PostgreSQL) is a parameter.
pub mod Base
pub mod Error
pub mod CommandLine
pub mod Config
pub mod Progress
pub mod Maintenance
pub mod Cutover
pub mod Apply
pub mod Dump
pub mod Restore
pub mod Resume
pub mod CopySplit
pub mod Publication
pub mod Verify
pub mod Preflight
pub mod Sequences
pub mod Tls
pub mod Snapshot
pub mod Orchestrator
mod Examples
