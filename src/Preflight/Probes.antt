-- ===== src/Preflight/Probes.antt =====
-- The preflight checks that ask the tools and the servers (pg_dbmigrator/src/preflight.rs). What
-- they ask is a parameter. The probes that `try_join!` makes at the same time are listed in the
-- macro's order, and of several errors the first in that order is returned.
use pg_migrator.Base.{
  ℕ, ℤ, pos, int_ltb, max, Text, lit, text_eq, trim, to_text, split_char, any, Option, none, some,
  List, [], ◌∷◌, ◌++◌, Bool, true, false, not, if◌then◌else◌,
}
use pg_migrator.Error.{
  MigrationError, config, missing_tool, postgres, Result, ok, err, ◌>>=◌, ◌>>◌, refuse_if,
  version_unparsable, output_not_utf8, source_lacks_replication, target_in_recovery,
  pglogical_preloaded, wal_level_not_logical, guc_unparsable, guc_not_positive,
}
use pg_migrator.Config.{MigrationMode}
use pg_migrator.Preflight.Versions.{
  parse_pg_dump_version, major_of, decide_pg_dump_compat, decide_pg_restore_compat,
}
use pg_migrator.Preflight.Decisions.{
  target_role_privilege_decision, classify_snapshot_timeout, classify_subscription_capacity,
  decide_extensions_available,
}
use pg_migrator.Preflight.Addresses.{maintenance_connection_string}

-- Running a tool with its output dropped: whether it exited with success and how the status is
-- printed, or why it did not start.
pub data Spawned : Type 0 where
  exited : Bool → Text → Spawned
  tool_not_found : Spawned
  spawn_failed : Text → Spawned

-- Running a tool for its output, `none` where that is not UTF-8.
pub data Captured : Type 0 where
  not_started : Text → Captured
  ran : Bool → Text → Option Text → Captured

-- the row that the query of the role's privileges returns
pub record PrivilegeRow : Type 0 where
  pub version_num : ℤ
  pub has_create : Bool
  pub is_super : Bool
  pub has_sub_role : Bool

pub record TargetRolePrivInfo : Type 0 where
  pub target_major : ℕ
  pub has_create : Bool
  pub is_super : Bool
  pub has_sub_role : Bool

-- before and after the target database is known to exist
pub data Moment : Type 0 where
  before after : Moment

-- What the tools and the servers answer. Each query names the connection string it is asked on.
pub record Probe : Type 0 where
  pub path : Option Text
  pub spawn : Text → Spawned
  pub capture : Text → Captured
  pub connect : Moment → Text → Result (Unit {0})
  pub version_num : Text → Result ℤ
  pub has_replication : Text → Result Bool
  pub privileges : Text → Result PrivilegeRow
  pub in_recovery : Text → Result Bool
  pub database_exists : Text → Text → Result Bool
  pub quote_ident : Text → Result Text
  pub run : Text → Text → Result (Unit {0})
  pub idle_timeout : Text → Result ℤ
  pub installed : Text → Result (List Text)
  pub available : Text → Result (List Text)
  pub wal_level : Text → Result Text
  pub setting : Text → Text → Result Text
  pub parse_i64 : Text → Option ℤ
  pub capacity : Text → Result (ℤ × ℤ × ℤ)
  pub preload_libraries : Text → Result Text

-- `is_undefined_database`
unfoldable pub is_undefined_database : MigrationError → Bool
is_undefined_database (postgres (some code)) = text_eq code (lit "3D000")
is_undefined_database _ = false

abbrev path_or_default : Option Text → Text
path_or_default none = []
path_or_default (some p) = p

unfoldable pub classify_version_check : Option Text → Text → Spawned → Result (Unit {0})
classify_version_check path tool (exited true status) = ok tt
classify_version_check path tool (exited false status) =
    err (missing_tool tool (lit "`" ++ (tool ++ (lit " --version` exited with status " ++ status))))
classify_version_check path tool tool_not_found =
    err (missing_tool tool (lit "not found in $PATH (PATH=" ++ (path_or_default path ++ lit ")")))
classify_version_check path tool (spawn_failed e) =
    err (missing_tool tool (lit "failed to spawn `" ++ (tool ++ (lit " --version`: " ++ e))))

unfoldable pub name_required_major : MigrationError → Option ℕ → MigrationError
name_required_major (missing_tool tool reason) (some major) = missing_tool tool (
    reason
    ++ (lit "; source and target run PostgreSQL "
        ++ (to_text major
            ++ (lit ", so install the "
                ++ (to_text major
                    ++ (lit " client (e.g. `postgresql-client-" ++ (to_text major ++ lit "`)")))))))
name_required_major e _ = e

abbrev result_ok : Result ℕ → Option ℕ
result_ok (ok n) = some n
result_ok (err e) = none

-- `REQUIRED_TOOLS`
abbrev pub required_tools : List Text
required_tools = lit "pg_dump" ∷ lit "pg_restore" ∷ []

module _ (p : Probe) where
  -- connect, or connect to the maintenance database where the database does not exist: the
  -- connection string that was used
  unfoldable pub connect_or_maintenance : Moment → Text → Result Text
  connect_or_maintenance m conn = elim (p.connect m conn) [
    | ok _ ↦ ok conn
    | err e ↦
        if is_undefined_database e
        then (p.connect m (maintenance_connection_string conn)
            >> ok (maintenance_connection_string conn))
        else err e
  ]

  unfoldable pub server_major_version : Text → Result ℕ
  server_major_version conn = do
    used ← connect_or_maintenance before conn
    num ← p.version_num used
    ok (major_of num)

  unfoldable pub recommended_client_major : Text → Text → Result ℕ
  recommended_client_major source target = do
    source_major ← server_major_version source
    target_major ← server_major_version target
    ok (max source_major target_major)

  -- the loop over the tools
  unfoldable pub check_tools : Text → Text → List Text → Result (Unit {0})
  check_tools source target [] = ok tt
  check_tools source target (tool ∷ tools) =
      elim (classify_version_check p.path tool (p.spawn tool)) [
        | ok _ ↦ check_tools source target tools
        | err e ↦ err (name_required_major e (result_ok (recommended_client_major source target)))
      ]

  unfoldable pub verify_pg_tools_installed : Text → Text → Result (Unit {0})
  verify_pg_tools_installed source target = check_tools source target required_tools

  unfoldable pub captured_output : Text → Captured → Result Text
  captured_output tool (not_started e) = err (missing_tool tool (lit "failed to spawn: " ++ e))
  captured_output tool (ran false status output) =
      err (missing_tool tool (lit "`" ++ (tool ++ (lit " --version` exited " ++ status))))
  captured_output tool (ran true status none) = err (config (output_not_utf8 tool))
  captured_output tool (ran true status (some output)) = ok output

  unfoldable pub capture_tool_version : Text → Result Text
  capture_tool_version tool = captured_output tool (p.capture tool)

  -- `.ok_or_else(..)`
  unfoldable pub parsed_version : Text → Text → Result ℕ
  parsed_version tool out = elim (parse_pg_dump_version out) [
    | some v ↦ ok v
    | none ↦ err (config (version_unparsable tool out))
  ]

  unfoldable pub verify_pg_dump_version_compat : Text → Text → Result (Unit {0})
  verify_pg_dump_version_compat source target = do
    pg_dump_out ← capture_tool_version (lit "pg_dump")
    pg_restore_out ← capture_tool_version (lit "pg_restore")
    source_major ← server_major_version source
    target_major ← server_major_version target
    pg_dump_major ← parsed_version (lit "pg_dump") pg_dump_out
    pg_restore_major ← parsed_version (lit "pg_restore") pg_restore_out
    decide_pg_dump_compat pg_dump_major source_major
    decide_pg_restore_compat pg_restore_major target_major pg_dump_major

  -- The methods of `PgProbe`, each on a connection of its own.
  unfoldable pub role_has_replication_or_super : Moment → Text → Result Bool
  role_has_replication_or_super m conn = p.connect m conn >> p.has_replication conn

  unfoldable pub target_role_privilege_info : Text → Result TargetRolePrivInfo
  target_role_privilege_info conn = do
    p.connect after conn
    row ← p.privileges conn
    ok (record {
      target_major = major_of row.version_num;
      has_create = row.has_create;
      is_super = row.is_super;
      has_sub_role = row.has_sub_role;
    })

  unfoldable pub is_in_recovery : Text → Result Bool
  is_in_recovery conn = do used ← connect_or_maintenance before conn; p.in_recovery used

  unfoldable pub subscription_capacity_gucs : Text → Result (ℤ × ℤ × ℤ)
  subscription_capacity_gucs conn = p.connect after conn >> p.capacity conn

  unfoldable pub idle_in_transaction_timeout_ms : Moment → Text → Result ℤ
  idle_in_transaction_timeout_ms m conn = p.connect m conn >> p.idle_timeout conn

  unfoldable pub installed_and_available_extensions : Text → Text → Result (List Text × List Text)
  installed_and_available_extensions source target = do
    p.connect after source
    p.connect after target
    installed ← p.installed source
    available ← p.available target
    ok (installed, available)

  unfoldable pub verify_source_replication_role : Moment → Text → Result (Unit {0})
  verify_source_replication_role m source = do
    has_repl ← role_has_replication_or_super m source
    refuse_if (not has_repl) source_lacks_replication

  unfoldable pub verify_target_not_in_recovery : Text → Result (Unit {0})
  verify_target_not_in_recovery target = do
    in_recovery ← is_in_recovery target
    refuse_if in_recovery target_in_recovery

  unfoldable pub create_database : Text → Text → Result (Unit {0})
  create_database maintenance db_name = do
    ident ← p.quote_ident db_name
    p.run maintenance (lit "CREATE DATABASE " ++ ident)

  unfoldable pub ensure_target_database_exists : Text → Text → Result (Unit {0})
  ensure_target_database_exists target db_name = do
    p.connect before (maintenance_connection_string target)
    exists ← p.database_exists (maintenance_connection_string target) db_name
    if exists then ok tt else create_database (maintenance_connection_string target) db_name

  unfoldable pub verify_target_role_privileges : Text → MigrationMode → Result (Unit {0})
  verify_target_role_privileges target mode = do
    info ← target_role_privilege_info target
    target_role_privilege_decision mode info.target_major info.has_create info.is_super
        info.has_sub_role

  unfoldable pub verify_source_snapshot_timeouts : Moment → Text → Result (Unit {0})
  verify_source_snapshot_timeouts m source = do
    idle_ms ← idle_in_transaction_timeout_ms m source
    classify_snapshot_timeout idle_ms

  unfoldable pub verify_target_extensions_available : Text → Text → Result (Unit {0})
  verify_target_extensions_available source target = do
    lists ← installed_and_available_extensions source target
    decide_extensions_available lists.0 lists.1

  -- one round of the loop over `max_replication_slots` and `max_wal_senders`
  unfoldable pub check_guc : Text → Text → Result (Unit {0})
  check_guc source guc = do
    raw ← p.setting source guc
    elim (p.parse_i64 (trim raw)) [
      | none ↦ err (config (guc_unparsable guc raw))
      | some parsed ↦ refuse_if (int_ltb parsed (pos 1)) (guc_not_positive guc parsed)
    ]

  unfoldable pub verify_source_logical_replication_ready : Text → Result (Unit {0})
  verify_source_logical_replication_ready source = do
    p.connect after source
    wal_level ← p.wal_level source
    refuse_if (not (text_eq wal_level (lit "logical"))) (wal_level_not_logical wal_level)
    check_guc source (lit "max_replication_slots")
    check_guc source (lit "max_wal_senders")

  unfoldable pub verify_target_subscription_capacity : Text → Result (Unit {0})
  verify_target_subscription_capacity target = do
    gucs ← subscription_capacity_gucs target
    classify_subscription_capacity gucs.0 gucs.1 gucs.2

  unfoldable pub ensure_pglogical_not_interfering : Text → Result (Unit {0})
  ensure_pglogical_not_interfering target = do
    p.connect after target
    libs ← p.preload_libraries target
    refuse_if (any (λ l. text_eq (trim l) (lit "pglogical")) (split_char b',' libs))
        pglogical_preloaded
