-- ===== src/Examples/Checks.antt =====
-- The preflight bundles, the sequences, the wait for a slot and connection strings at concrete
-- inputs.
use pg_migrator.Preflight.Probes.{
  idle_in_transaction_timeout_ms, installed_and_available_extensions, is_in_recovery,
  role_has_replication_or_super, subscription_capacity_gucs, target_role_privilege_info,
}
use pg_migrator.Apply.Slot.{Poll}
use pg_migrator.Base.{
  any, int_eq, int_ltb, is_ascii_digit, is_whitespace, mem_text, negsuc, parse_unsigned, pos,
  split_at_text, split_char, split_whitespace, strip_prefix, take_digits, text_eq, trim, trim_end,
  trim_start,
}
use pg_migrator.Base.{suc, zero, ◌+◌}
use pg_migrator.Orchestrator.Run.{run}
use pg_migrator.Base.{contains}
use pg_migrator.Tls.{Connector}
use pg_migrator.Snapshot.Addresses.{slot_address}
use pg_migrator.Snapshot.Parameters.{Extended, slot_address_lem}
use pg_migrator.Config.{validate}
use pg_migrator.Error.{Result, cancelled}
use pg_migrator.Orchestrator.Gate.{Refused, run_gate}
use pg_migrator.Orchestrator.Trace.{online_preflight}
use pg_migrator.Preflight.Bundles.{extensions_checked, passed, snapshot_timeouts_if_split}
use pg_migrator.Preflight.Decisions.{
  classify_snapshot_timeout, classify_subscription_capacity, decide_extensions_available,
  missing_extensions, note, resolve_extension_preflight, summary_items,
  target_role_privilege_decision,
}
use pg_migrator.Preflight.Probes.{
  Probe, capture_tool_version, captured_output, check_guc, check_tools, classify_version_check,
  connect_or_maintenance, ensure_pglogical_not_interfering, ensure_target_database_exists,
  parsed_version, server_major_version, verify_pg_dump_version_compat, verify_pg_tools_installed,
  verify_source_logical_replication_ready, verify_source_replication_role,
  verify_source_snapshot_timeouts, verify_target_extensions_available,
  verify_target_not_in_recovery, verify_target_role_privileges, verify_target_subscription_capacity,
}
use pg_migrator.Preflight.Versions.{
  after_marker, decide_pg_dump_compat, decide_pg_restore_compat, first_word_number, leading_number,
  major_of, marked_version, parse_pg_dump_version,
}
use pg_migrator.Sequences.{Quoting, SeqSyncTarget, SourceSequence}
use pg_migrator.Base.{
  refl, ◌≡◌, ◌⊎◌, ℕ, Text, lit, none, some, List, [], ◌∷◌, ◌++◌, true, false, filter,
}
use pg_migrator.Config.{offline, online}
use pg_migrator.Error.{ok, err}
use pg_migrator.Preflight.Decisions.{pass}
use pg_migrator.Preflight.Steps.{IsOfflineReady, IsOnlineReady}
use pg_migrator.Preflight.Bundles.{run_offline_preflight, run_online_preflight}
use pg_migrator.Preflight.Offline.{run_offline_preflight_iff}
use pg_migrator.Preflight.Online.{run_online_preflight_iff}
use pg_migrator.Examples.Data.{config_of, probe, migrator_of, world}

offline_passes :
    run_offline_preflight probe (config_of offline)
    ≡ ok (
        (lit "pg_tools", pass)
        ∷ (lit "version_compat", pass)
        ∷ (lit "target_not_in_recovery", pass)
        ∷ (lit "target_db_exists", pass)
        ∷ (lit "target_role_privs", pass)
        ∷ (lit "extensions_available", pass)
        ∷ [])
unfolding run_offline_preflight run_online_preflight passed extensions_checked
    snapshot_timeouts_if_split summary_items resolve_extension_preflight verify_pg_tools_installed
    check_tools classify_version_check verify_pg_dump_version_compat capture_tool_version
    captured_output server_major_version connect_or_maintenance parsed_version parse_pg_dump_version
    marked_version after_marker first_word_number leading_number major_of decide_pg_dump_compat
    decide_pg_restore_compat verify_source_replication_role verify_target_not_in_recovery
    ensure_target_database_exists verify_target_role_privileges target_role_privilege_decision
    verify_source_snapshot_timeouts classify_snapshot_timeout verify_target_extensions_available
    decide_extensions_available missing_extensions check_guc role_has_replication_or_super
    target_role_privilege_info is_in_recovery subscription_capacity_gucs
    idle_in_transaction_timeout_ms installed_and_available_extensions
    verify_source_logical_replication_ready verify_target_subscription_capacity
    classify_subscription_capacity ensure_pglogical_not_interfering int_ltb split_at_text
    strip_prefix split_whitespace take_digits is_ascii_digit parse_unsigned is_whitespace any
    split_char trim trim_end trim_start note lit text_eq mem_text filter int_eq
offline_passes = refl

run_offline_preflight_iff_example : IsOfflineReady probe (config_of offline)
run_offline_preflight_iff_example =
    (run_offline_preflight_iff probe (config_of offline)).0 (_, offline_passes)

online_passes :
    run_online_preflight probe (config_of online)
    ≡ ok (
        (lit "pg_tools", pass)
        ∷ (lit "version_compat", pass)
        ∷ (lit "source_repl_role", pass)
        ∷ (lit "source_snapshot_timeouts", pass)
        ∷ (lit "target_not_in_recovery", pass)
        ∷ (lit "target_db_exists", pass)
        ∷ (lit "target_role_privs", pass)
        ∷ (lit "extensions_available", pass)
        ∷ (lit "source_logical_repl", pass)
        ∷ (lit "target_sub_capacity", pass)
        ∷ (lit "pglogical_clean", pass)
        ∷ [])
unfolding run_offline_preflight run_online_preflight passed extensions_checked
    snapshot_timeouts_if_split summary_items resolve_extension_preflight verify_pg_tools_installed
    check_tools classify_version_check verify_pg_dump_version_compat capture_tool_version
    captured_output server_major_version connect_or_maintenance parsed_version parse_pg_dump_version
    marked_version after_marker first_word_number leading_number major_of decide_pg_dump_compat
    decide_pg_restore_compat verify_source_replication_role verify_target_not_in_recovery
    ensure_target_database_exists verify_target_role_privileges target_role_privilege_decision
    verify_source_snapshot_timeouts classify_snapshot_timeout verify_target_extensions_available
    decide_extensions_available missing_extensions check_guc role_has_replication_or_super
    target_role_privilege_info is_in_recovery subscription_capacity_gucs
    idle_in_transaction_timeout_ms installed_and_available_extensions
    verify_source_logical_replication_ready verify_target_subscription_capacity
    classify_subscription_capacity ensure_pglogical_not_interfering int_ltb split_at_text
    strip_prefix split_whitespace take_digits is_ascii_digit parse_unsigned is_whitespace any
    split_char trim trim_end trim_start note lit text_eq mem_text filter int_eq
online_passes = refl

run_online_preflight_iff_example : IsOnlineReady probe (config_of online)
run_online_preflight_iff_example =
    (run_online_preflight_iff probe (config_of online)).0 (_, online_passes)

run_gate_example :
    ((validate (config_of online) ≡ ok tt)
      × ((p : Probe) × (world.probe [] ≡ some p) × IsOnlineReady p (config_of online)))
    ⊎ Refused online_preflight (run world (migrator_of online) [])
run_gate_example = run_gate world (migrator_of online) (cc)

-- two sequences that have been advanced, and one that has not
abbrev sequences : List SourceSequence
sequences =
    record { schema = lit "a"; name = lit "s"; last_value = some (pos 7) }
    ∷ record { schema = lit "a"; name = lit "t"; last_value = none }
    ∷ record { schema = lit "b"; name = lit "u"; last_value = some (negsuc 2) }
    ∷ []

-- a target without PL/pgSQL that refuses the first sequence
abbrev old_target : SeqSyncTarget
old_target = record {
  execute_setval = λ log sql value. elim value [ pos n ↦ err cancelled | negsuc n ↦ ok 1 ];
  batch_execute_sql = λ log sql. err cancelled;
  query_batch_applied = λ log. ok (pos 0);
}

abbrev plain : Quoting
plain = record { ident = λ name. ok name; literal = λ text. ok text }

abbrev regclass_of : SourceSequence → Text
regclass_of s = s.schema ++ (lit "." ++ s.name)

-- the slot is active for thirty seconds
abbrev held : ℕ → ℕ → List Poll
held zero now = []
held (suc n) now = record { rows = ok (true ∷ []); now = now } ∷ held n (now + 500)

-- a client is the connection string and the connector
abbrev dial : Text → Connector → Result (Text × Connector)
dial conn connector = ok (conn, connector)

slot_address_lem_example :
    let conn = lit "postgres://h/d?x=1" in
    ((suffix : Text) × (slot_address conn ≡ conn ++ suffix))
    × (slot_address (slot_address conn) ≡ slot_address conn)
    × (contains (lit "replication=") (slot_address conn) ≡ true)
    × (contains (lit "keepalives") (slot_address conn) ≡ true)
    × (contains (lit "replication=") conn ≡ false
        → contains (lit "keepalives") conn ≡ false
        → Extended conn (slot_address conn))
slot_address_lem_example = slot_address_lem (lit "postgres://h/d?x=1")
