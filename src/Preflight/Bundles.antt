-- ===== src/Preflight/Bundles.antt =====
-- `run_offline_preflight` and `run_online_preflight` (pg_dbmigrator/src/preflight.rs), and the names
-- of their checks.
use pg_migrator.Base.{Text, lit, is_some, List, [], ◌∷◌, if◌then◌else◌}
use pg_migrator.Error.{Result, ok, ◌>>=◌, ◌>>◌}
use pg_migrator.Config.{offline, online, MigrationConfig}
use pg_migrator.Preflight.Decisions.{pass, PreflightReport, note, resolve_extension_preflight}
use pg_migrator.Preflight.Probes.{
  Probe, before, after, verify_pg_tools_installed, verify_pg_dump_version_compat,
  verify_source_replication_role, verify_target_not_in_recovery, ensure_target_database_exists,
  verify_target_role_privileges, verify_source_snapshot_timeouts,
  verify_target_extensions_available, verify_source_logical_replication_ready,
  verify_target_subscription_capacity, ensure_pglogical_not_interfering,
}

abbrev pub offline_preflight_check_names : List Text
offline_preflight_check_names =
    lit "pg_tools"
    ∷ lit "version_compat"
    ∷ lit "target_not_in_recovery"
    ∷ lit "target_db_exists"
    ∷ lit "target_role_privs"
    ∷ lit "extensions_available"
    ∷ []

abbrev pub online_preflight_check_names : List Text
online_preflight_check_names =
    lit "pg_tools"
    ∷ lit "version_compat"
    ∷ lit "source_repl_role"
    ∷ lit "source_snapshot_timeouts"
    ∷ lit "target_not_in_recovery"
    ∷ lit "target_db_exists"
    ∷ lit "target_role_privs"
    ∷ lit "extensions_available"
    ∷ lit "source_logical_repl"
    ∷ lit "target_sub_capacity"
    ∷ lit "pglogical_clean"
    ∷ []

module _ (p : Probe) (cfg : MigrationConfig) where
  -- `check.await?; report.record(name, Pass)`
  unfoldable pub passed : Result (Unit {0}) → Text → PreflightReport → Result PreflightReport
  passed check name report = check >> ok (note report name pass)

  unfoldable pub extensions_checked : PreflightReport → Result PreflightReport
  extensions_checked report = do
    outcome ←
        resolve_extension_preflight
          (verify_target_extensions_available p cfg.source.connection_string
            cfg.target.connection_string)
          cfg.allow_restore_errors
    ok (note report (lit "extensions_available") outcome)

  -- only where the direct copy of large tables is on
  unfoldable pub snapshot_timeouts_if_split : PreflightReport → Result PreflightReport
  snapshot_timeouts_if_split report =
      if is_some cfg.split_tables_larger_than
      then passed (verify_source_snapshot_timeouts p after cfg.source.connection_string)
          (lit "source_snapshot_timeouts") report
      else ok report

  unfoldable pub run_offline_preflight : Result PreflightReport
  run_offline_preflight =
      let source = cfg.source.connection_string in
      let target = cfg.target.connection_string in
      do
        r1 ← passed (verify_pg_tools_installed p source target) (lit "pg_tools") []
        r2 ← passed (verify_pg_dump_version_compat p source target) (lit "version_compat") r1
        r3 ← passed (verify_target_not_in_recovery p target) (lit "target_not_in_recovery") r2
        r4 ←
            passed (ensure_target_database_exists p target cfg.target.database)
              (lit "target_db_exists") r3
        r5 ← passed (verify_target_role_privileges p target offline) (lit "target_role_privs") r4
        r6 ← snapshot_timeouts_if_split r5
        extensions_checked r6

  unfoldable pub run_online_preflight : Result PreflightReport
  run_online_preflight =
      let source = cfg.source.connection_string in
      let target = cfg.target.connection_string in
      do
        r1 ← passed (verify_pg_tools_installed p source target) (lit "pg_tools") []
        r2 ← passed (verify_pg_dump_version_compat p source target) (lit "version_compat") r1
        r3 ← passed (verify_source_replication_role p before source) (lit "source_repl_role") r2
        r4 ←
            passed (verify_source_snapshot_timeouts p before source)
              (lit "source_snapshot_timeouts") r3
        r5 ← passed (verify_target_not_in_recovery p target) (lit "target_not_in_recovery") r4
        r6 ←
            passed (ensure_target_database_exists p target cfg.target.database)
              (lit "target_db_exists") r5
        r7 ← passed (verify_target_role_privileges p target online) (lit "target_role_privs") r6
        r8 ← extensions_checked r7
        r9 ←
            passed (verify_source_logical_replication_ready p source) (lit "source_logical_repl") r8
        r10 ← passed (verify_target_subscription_capacity p target) (lit "target_sub_capacity") r9
        passed (ensure_pglogical_not_interfering p target) (lit "pglogical_clean") r10
