-- ===== src/Examples/Copying.antt =====
-- A run that copies a large table directly, in the example world.
use pg_migrator.Base.{
  arith, refl, ◌≡◌, ◌⊎◌, none, some, [], ◌∷◌, ◌++◌, true, take, inl, inr, In, pos,
}
use pg_migrator.Config.{offline}
use pg_migrator.CopySplit.Pages.{SplitTable}
use pg_migrator.Dump.{DumpRequest}
use pg_migrator.Restore.Command.{RestoreRequest, post_data}
use pg_migrator.Error.{ok}
use pg_migrator.Orchestrator.Trace.{World, called, value, pg_dump, pg_restore}
use pg_migrator.Orchestrator.Setup.{Migrator, SplitContext}
use pg_migrator.Orchestrator.Run.{MigrationOutcome}
use pg_migrator.Orchestrator.Promises.{trace_of}
use pg_migrator.Orchestrator.Together.{CopiedFor, post_data_after_copy, split_tables_filled}
use pg_migrator.Examples.Data.{config_of, world, drop}
use pg_migrator.Base.{
  lit, filter, mem_text, text_eq, int_eq, rsplit_once, int_ltb, split_at_text, strip_prefix,
  split_whitespace, take_digits, is_ascii_digit, parse_unsigned, is_whitespace, any, split_char,
  trim, trim_end, trim_start,
}
use pg_migrator.Config.{validate, validate_split_copy, validate_online, validate_cutover}
use pg_migrator.CopySplit.Run.{run_split_copy, copy_table, then_tables, sum_rows}
use pg_migrator.Maintenance.{
  run_source_vacuum, run_target_analyze, maintain, build_analyze_sql, build_vacuum_analyze_sql,
}
use pg_migrator.Orchestrator.Run.{run, dispatch, after_preflight, preflight, run_offline}
use pg_migrator.Orchestrator.Setup.{
  load_or_init_resume, run_source_vacuum_stage, maybe_vacuum_source, mark_on_success, save_resume,
  prepare_split, prepare_split_for, dump_path_or_default, resume_path, dump_request, check_cancel,
  restore_request, run_target_analyze_stage, maybe_analyze_target, prepare_split_above,
  split_context, split_snapshot_id,
}
use pg_migrator.Orchestrator.Stages.{
  dump_stage, run_dump, restore_stage, restore, for_sections, restore_section, run_restore,
  after_section, run_split_copy_stage, run_verify_stage, judge,
}
use pg_migrator.Orchestrator.Trace.{◌>>=◌, lift, ask, report, pure, fail, attempt}
use pg_migrator.Preflight.Bundles.{
  run_offline_preflight, run_online_preflight, passed, extensions_checked,
  snapshot_timeouts_if_split,
}
use pg_migrator.Preflight.Decisions.{
  note, summary_items, resolve_extension_preflight, target_role_privilege_decision,
  classify_snapshot_timeout, decide_extensions_available, missing_extensions,
  classify_subscription_capacity,
}
use pg_migrator.Preflight.Probes.{
  verify_pg_tools_installed, check_tools, classify_version_check, verify_pg_dump_version_compat,
  capture_tool_version, captured_output, server_major_version, connect_or_maintenance,
  parsed_version, verify_source_replication_role, verify_target_not_in_recovery,
  ensure_target_database_exists, verify_target_role_privileges, verify_source_snapshot_timeouts,
  verify_target_extensions_available, role_has_replication_or_super, target_role_privilege_info,
  is_in_recovery, subscription_capacity_gucs, idle_in_transaction_timeout_ms,
  installed_and_available_extensions, check_guc, verify_source_logical_replication_ready,
  verify_target_subscription_capacity, ensure_pglogical_not_interfering,
}
use pg_migrator.Preflight.Versions.{
  parse_pg_dump_version, marked_version, after_marker, first_word_number, leading_number, major_of,
  decide_pg_dump_compat, decide_pg_restore_compat,
}
use pg_migrator.Publication.{filter_tables_by_exclusions, keeps_table}
use pg_migrator.Restore.Command.{run_pg_restore, tolerate}
use pg_migrator.Resume.Token.{has, new_token, mark, default_resume_path, config_hash, mode_name}
use pg_migrator.Verify.Counts.{
  verify_row_counts, selected, qualified, select_tables_to_verify, count_in_workers, join_workers,
  worker, count_all, count_table, count_split, compared, target_count, chunks, chunk_size,
}
use pg_migrator.Verify.Report.{all_match, mismatches, summary_line}

abbrev copier : Migrator
copier = record {
  config = record (config_of offline) { split_tables_larger_than = some 1000 };
  dump_path = none;
}

-- a table of 2000 bytes on the source, to be copied in one part
abbrev large : SplitTable
large = record {
  table = lit "a.t";
  bytes = pos 2000;
  columns = lit "id" ∷ [];
  parts = record { table = lit "a.t"; start_page = 0; end_page = none } ∷ [];
}

abbrev large_world : World
large_world = record world { planned = λ tr. ok (large ∷ []) }

abbrev copied_outcome : MigrationOutcome
copied_outcome = record { stats = none; dump_path = lit "dump_offline" }

abbrev large_split : SplitContext
large_split = record { plan = large ∷ []; snapshot_id = lit "exported" }

abbrev archive_request : DumpRequest
archive_request =
    dump_request large_world copier (lit "dump_offline") (some (lit "exported")) (some large_split)

abbrev last_request : RestoreRequest
last_request = restore_request large_world copier (lit "dump_offline") (some post_data)

copied_value : (run large_world copier []).0 ≡ value copied_outcome
unfolding run ◌>>=◌ lift lit validate validate_split_copy validate_online validate_cutover dispatch
    after_preflight preflight ask report run_offline load_or_init_resume pure fail
    run_source_vacuum_stage has new_token attempt maybe_vacuum_source mark_on_success save_resume
    mark prepare_split prepare_split_for dump_path_or_default resume_path dump_stage run_dump
    dump_request check_cancel restore_stage restore for_sections restore_section run_restore
    restore_request after_section run_split_copy_stage run_pg_restore tolerate
    run_target_analyze_stage maybe_analyze_target run_verify_stage judge all_match mismatches filter
    summary_line default_resume_path config_hash mode_name verify_row_counts selected qualified
    select_tables_to_verify filter_tables_by_exclusions keeps_table mem_text text_eq int_eq
    count_in_workers join_workers worker count_all count_table count_split compared target_count
    chunks chunk_size rsplit_once run_offline_preflight run_online_preflight passed
    extensions_checked snapshot_timeouts_if_split note summary_items resolve_extension_preflight
    verify_pg_tools_installed check_tools classify_version_check verify_pg_dump_version_compat
    capture_tool_version captured_output server_major_version connect_or_maintenance parsed_version
    parse_pg_dump_version marked_version after_marker first_word_number leading_number major_of
    decide_pg_dump_compat decide_pg_restore_compat verify_source_replication_role
    verify_target_not_in_recovery ensure_target_database_exists verify_target_role_privileges
    target_role_privilege_decision verify_source_snapshot_timeouts classify_snapshot_timeout
    verify_target_extensions_available decide_extensions_available missing_extensions
    role_has_replication_or_super target_role_privilege_info is_in_recovery
    subscription_capacity_gucs idle_in_transaction_timeout_ms installed_and_available_extensions
    check_guc verify_source_logical_replication_ready verify_target_subscription_capacity
    classify_subscription_capacity ensure_pglogical_not_interfering int_ltb split_at_text
    strip_prefix split_whitespace take_digits is_ascii_digit parse_unsigned is_whitespace any
    split_char trim trim_end trim_start run_source_vacuum run_target_analyze maintain
    build_analyze_sql build_vacuum_analyze_sql prepare_split_above split_context split_snapshot_id
    run_split_copy copy_table then_tables sum_rows
copied_value = refl

archive_found : In (called (pg_dump archive_request) true) (trace_of large_world copier)
unfolding run ◌>>=◌ lift lit validate validate_split_copy validate_online validate_cutover dispatch
    after_preflight preflight ask report run_offline load_or_init_resume pure fail
    run_source_vacuum_stage has new_token attempt maybe_vacuum_source mark_on_success save_resume
    mark prepare_split prepare_split_for dump_path_or_default resume_path dump_stage run_dump
    dump_request check_cancel restore_stage restore for_sections restore_section run_restore
    restore_request after_section run_split_copy_stage run_pg_restore tolerate
    run_target_analyze_stage maybe_analyze_target run_verify_stage judge all_match mismatches filter
    summary_line default_resume_path config_hash mode_name verify_row_counts selected qualified
    select_tables_to_verify filter_tables_by_exclusions keeps_table mem_text text_eq int_eq
    count_in_workers join_workers worker count_all count_table count_split compared target_count
    chunks chunk_size rsplit_once run_offline_preflight run_online_preflight passed
    extensions_checked snapshot_timeouts_if_split note summary_items resolve_extension_preflight
    verify_pg_tools_installed check_tools classify_version_check verify_pg_dump_version_compat
    capture_tool_version captured_output server_major_version connect_or_maintenance parsed_version
    parse_pg_dump_version marked_version after_marker first_word_number leading_number major_of
    decide_pg_dump_compat decide_pg_restore_compat verify_source_replication_role
    verify_target_not_in_recovery ensure_target_database_exists verify_target_role_privileges
    target_role_privilege_decision verify_source_snapshot_timeouts classify_snapshot_timeout
    verify_target_extensions_available decide_extensions_available missing_extensions
    role_has_replication_or_super target_role_privilege_info is_in_recovery
    subscription_capacity_gucs idle_in_transaction_timeout_ms installed_and_available_extensions
    check_guc verify_source_logical_replication_ready verify_target_subscription_capacity
    classify_subscription_capacity ensure_pglogical_not_interfering int_ltb split_at_text
    strip_prefix split_whitespace take_digits is_ascii_digit parse_unsigned is_whitespace any
    split_char trim trim_end trim_start run_source_vacuum run_target_analyze maintain
    build_analyze_sql build_vacuum_analyze_sql prepare_split_above split_context split_snapshot_id
    run_split_copy copy_table then_tables sum_rows
archive_found = inr (
    inr (
      inr (
        inr (
          inr (
            inr (
              inr (inr (inr (inr (inr (inr (inr (inr (inr (inr (inr (inr (inl refl))))))))))))))))))

post_data_cut :
    trace_of large_world copier
    ≡ take 8 (trace_of large_world copier)
      ++ called (pg_restore last_request) true ∷ drop 9 (trace_of large_world copier)
unfolding run ◌>>=◌ lift lit validate validate_split_copy validate_online validate_cutover dispatch
    after_preflight preflight ask report run_offline load_or_init_resume pure fail
    run_source_vacuum_stage has new_token attempt maybe_vacuum_source mark_on_success save_resume
    mark prepare_split prepare_split_for dump_path_or_default resume_path dump_stage run_dump
    dump_request check_cancel restore_stage restore for_sections restore_section run_restore
    restore_request after_section run_split_copy_stage run_pg_restore tolerate
    run_target_analyze_stage maybe_analyze_target run_verify_stage judge all_match mismatches filter
    summary_line default_resume_path config_hash mode_name verify_row_counts selected qualified
    select_tables_to_verify filter_tables_by_exclusions keeps_table mem_text text_eq int_eq
    count_in_workers join_workers worker count_all count_table count_split compared target_count
    chunks chunk_size rsplit_once run_offline_preflight run_online_preflight passed
    extensions_checked snapshot_timeouts_if_split note summary_items resolve_extension_preflight
    verify_pg_tools_installed check_tools classify_version_check verify_pg_dump_version_compat
    capture_tool_version captured_output server_major_version connect_or_maintenance parsed_version
    parse_pg_dump_version marked_version after_marker first_word_number leading_number major_of
    decide_pg_dump_compat decide_pg_restore_compat verify_source_replication_role
    verify_target_not_in_recovery ensure_target_database_exists verify_target_role_privileges
    target_role_privilege_decision verify_source_snapshot_timeouts classify_snapshot_timeout
    verify_target_extensions_available decide_extensions_available missing_extensions
    role_has_replication_or_super target_role_privilege_info is_in_recovery
    subscription_capacity_gucs idle_in_transaction_timeout_ms installed_and_available_extensions
    check_guc verify_source_logical_replication_ready verify_target_subscription_capacity
    classify_subscription_capacity ensure_pglogical_not_interfering int_ltb split_at_text
    strip_prefix split_whitespace take_digits is_ascii_digit parse_unsigned is_whitespace any
    split_char trim trim_end trim_start run_source_vacuum run_target_analyze maintain
    build_analyze_sql build_vacuum_analyze_sql prepare_split_above split_context split_snapshot_id
    run_split_copy copy_table then_tables sum_rows
post_data_cut = refl

post_data_after_copy_example :
    (archive_request.exclude_table_data ≡ [])
    ⊎ CopiedFor archive_request (drop 9 (trace_of large_world copier))
unfolding restore_request
post_data_after_copy_example =
    post_data_after_copy large_world copier (take 8 (trace_of large_world copier))
      (drop 9 (trace_of large_world copier)) last_request true archive_request true post_data_cut
      refl archive_found

split_tables_filled_example :
    (archive_request.exclude_table_data ≡ [])
    ⊎ CopiedFor archive_request (trace_of large_world copier)
split_tables_filled_example =
    split_tables_filled large_world copier copied_outcome archive_request true refl (ground arith)
      copied_value archive_found
