-- ===== src/Examples/Migrations.antt =====
-- Runs of the whole migrator in the example world.
use pg_migrator.Apply.Teardown.{execute}
use pg_migrator.Base.{
  Bool, List, refl, ◌≡◌, ◌≤◌, ◌⊎◌, Text, none, some, [], ◌∷◌, ◌++◌, true, false, ◌||◌, take, any,
  inl, inr, In,
}
use pg_migrator.Config.{offline, online, verify}
use pg_migrator.Resume.Token.{source_vacuum, CompletedStage, ResumeToken, has_stage}
use pg_migrator.Resume.Token
use pg_migrator.Progress
use pg_migrator.Progress.{cutover_requested}
use pg_migrator.Error.{ok}
use pg_migrator.Apply.Teardown.{
  Finished, create_subscription, disable, detach_slot, drop_subscription,
}
use pg_migrator.Resume.File.{read}
use pg_migrator.Verify.Report.{VerifyReport}
use pg_migrator.CopySplit.Pages.{SplitTable}
use pg_migrator.Dump.{DumpRequest}
use pg_migrator.Restore.Command.{RestoreRequest}
use pg_migrator.Orchestrator.Trace.{
  split_copy, pg_restore, verify_publication, ensure_publication, prepare_slot, pg_dump,
  vacuum_source, World, called, applied, saved, value, drop_slot, verify_counts, analyze_target,
}
use pg_migrator.Orchestrator.Setup.{Migrator}
use pg_migrator.Orchestrator.Run.{MigrationOutcome}
use pg_migrator.Orchestrator.Legal.{done, rank, cuts_over, did, is_wait, legal}
use pg_migrator.Orchestrator.Ending.{found}
use pg_migrator.Orchestrator.Promises.{
  Makes, trace_of, run-is_legal, run-success, calls_ordered, saved_tokens_are_honest,
  completed_stages_not_repeated, cleanup_only_after_cutover, apply_only_after_wait,
}
use pg_migrator.Orchestrator.ReadOnly.{writes, verify_mode_reads_only, verify_mode-success}
use pg_migrator.Examples.Data.{migrator_of, world, drop}
use pg_migrator.Apply.Loop.{start, run_loop, step}
use pg_migrator.Apply.Stale.{drop_source_slot, drop_source_publication, force_clean_stale_state}
use pg_migrator.Apply.Teardown.{run_native_apply, attach, teardown_subscription}
use pg_migrator.Base.{
  lit, filter, mem_text, text_eq, int_eq, rsplit_once, int_ltb, split_at_text, strip_prefix,
  split_whitespace, take_digits, is_ascii_digit, parse_unsigned, is_whitespace, any, split_char,
  trim, trim_end, trim_start,
}
use pg_migrator.Config.{validate, validate_split_copy, validate_online, validate_cutover}
use pg_migrator.Cutover.{new_sampler}
use pg_migrator.Maintenance.{
  run_source_vacuum, run_target_analyze, maintain, build_analyze_sql, build_vacuum_analyze_sql,
}
use pg_migrator.Orchestrator.Run.{
  run, dispatch, after_preflight, preflight, run_offline, run_online, force_clean_stage, call,
  prepare_stage, publication_stage, note_created, slot_stage, release_subscription, best_effort,
  run_native_engine, apply_phase, subscription_source, sequences_stage, cleanup_stage,
  cleanup_source_after_cutover, drop_created_publication, drop_slot_after_cutover,
}
use pg_migrator.Orchestrator.Setup.{
  load_or_init_resume, run_source_vacuum_stage, maybe_vacuum_source, mark_on_success, save_resume,
  prepare_split, prepare_split_for, dump_path_or_default, resume_path, dump_request, check_cancel,
  restore_request, run_target_analyze_stage, maybe_analyze_target,
}
use pg_migrator.Orchestrator.Stages.{
  dump_stage, run_dump, restore_stage, restore, for_sections, restore_section, run_restore,
  after_section, run_split_copy_stage, run_verify_stage, judge,
}
use pg_migrator.Orchestrator.Trace.{◌>>=◌, lift, ask, report, pure, fail, attempt}
use pg_migrator.Preflight.Bundles.{
  run_offline_preflight, run_online_preflight, passed, extensions_checked,
  snapshot_timeouts_if_split,
}
use pg_migrator.Preflight.Decisions.{
  note, summary_items, resolve_extension_preflight, target_role_privilege_decision,
  classify_snapshot_timeout, decide_extensions_available, missing_extensions,
  classify_subscription_capacity,
}
use pg_migrator.Preflight.Probes.{
  verify_pg_tools_installed, check_tools, classify_version_check, verify_pg_dump_version_compat,
  capture_tool_version, captured_output, server_major_version, connect_or_maintenance,
  parsed_version, verify_source_replication_role, verify_target_not_in_recovery,
  ensure_target_database_exists, verify_target_role_privileges, verify_source_snapshot_timeouts,
  verify_target_extensions_available, role_has_replication_or_super, target_role_privilege_info,
  is_in_recovery, subscription_capacity_gucs, idle_in_transaction_timeout_ms,
  installed_and_available_extensions, check_guc, verify_source_logical_replication_ready,
  verify_target_subscription_capacity, ensure_pglogical_not_interfering,
}
use pg_migrator.Preflight.Versions.{
  parse_pg_dump_version, marked_version, after_marker, first_word_number, leading_number, major_of,
  decide_pg_dump_compat, decide_pg_restore_compat,
}
use pg_migrator.Publication.{
  filter_tables_by_exclusions, keeps_table, ensure_publication_exists, create_publication,
  fetch_if_needed, effective_scope, build_create_publication_sql, scope_sql,
}
use pg_migrator.Restore.Command.{run_pg_restore, tolerate}
use pg_migrator.Resume.Token.{has, new_token, mark, default_resume_path, config_hash, mode_name}
use pg_migrator.Sequences.{
  sync_sequences, collect_source_sequences, apply_sequences_to_target, advanced, apply_actionable,
  apply_single, build_setval_sql, qualified_name, value_or_zero,
}
use pg_migrator.Snapshot.{prepare_replication_slot}
use pg_migrator.Verify.Counts.{
  verify_row_counts, selected, qualified, select_tables_to_verify, count_in_workers, join_workers,
  worker, count_all, count_table, count_split, compared, target_count, chunks, chunk_size,
}
use pg_migrator.Verify.Report.{all_match, mismatches, summary_line}
use pg_migrator.Orchestrator.Run.{run_verify}
use pg_migrator.Orchestrator.Setup.{init_resume, resumed}
use pg_migrator.Resume.File.{load}
use pg_migrator.Resume.Token.{check_compatible}

abbrev off : Migrator
off = migrator_of offline

abbrev on : Migrator
on = migrator_of online

abbrev whole_offline : MigrationOutcome
whole_offline = record { stats = none; dump_path = lit "dump_offline" }

offline_value : (run world off []).0 ≡ value whole_offline
unfolding run ◌>>=◌ lift lit validate validate_split_copy validate_online validate_cutover dispatch
    after_preflight preflight ask report run_offline load_or_init_resume pure fail
    run_source_vacuum_stage has new_token attempt maybe_vacuum_source mark_on_success save_resume
    mark prepare_split prepare_split_for dump_path_or_default resume_path dump_stage run_dump
    dump_request check_cancel restore_stage restore for_sections restore_section run_restore
    restore_request after_section run_split_copy_stage run_pg_restore tolerate
    run_target_analyze_stage maybe_analyze_target run_verify_stage judge all_match mismatches filter
    summary_line default_resume_path config_hash mode_name verify_row_counts selected qualified
    select_tables_to_verify filter_tables_by_exclusions keeps_table mem_text text_eq int_eq
    count_in_workers join_workers worker count_all count_table count_split compared target_count
    chunks chunk_size rsplit_once run_offline_preflight run_online_preflight passed
    extensions_checked snapshot_timeouts_if_split note summary_items resolve_extension_preflight
    verify_pg_tools_installed check_tools classify_version_check verify_pg_dump_version_compat
    capture_tool_version captured_output server_major_version connect_or_maintenance parsed_version
    parse_pg_dump_version marked_version after_marker first_word_number leading_number major_of
    decide_pg_dump_compat decide_pg_restore_compat verify_source_replication_role
    verify_target_not_in_recovery ensure_target_database_exists verify_target_role_privileges
    target_role_privilege_decision verify_source_snapshot_timeouts classify_snapshot_timeout
    verify_target_extensions_available decide_extensions_available missing_extensions
    role_has_replication_or_super target_role_privilege_info is_in_recovery
    subscription_capacity_gucs idle_in_transaction_timeout_ms installed_and_available_extensions
    check_guc verify_source_logical_replication_ready verify_target_subscription_capacity
    classify_subscription_capacity ensure_pglogical_not_interfering int_ltb split_at_text
    strip_prefix split_whitespace take_digits is_ascii_digit parse_unsigned is_whitespace any
    split_char trim trim_end trim_start run_source_vacuum run_target_analyze maintain
    build_analyze_sql build_vacuum_analyze_sql
offline_value = refl

run-success_example :
    (((found world off offline).has_dump || done (trace_of world off) Token.dump) ≡ true)
    × (((found world off offline).has_restore || done (trace_of world off) Token.restore) ≡ true)
run-success_example = run-success world off whole_offline refl offline_value

run-is_legal_example : legal (found world off offline) (trace_of world off) ≡ true
run-is_legal_example = run-is_legal world off

-- the last entries of the offline run, and the save before them
abbrev analyzed_token : ResumeToken
analyzed_token = mark Token.analyze (
    mark Token.restore (
      mark Token.dump
        (mark Token.source_vacuum (new_token world.hasher off.config (lit "dump_offline")))))

abbrev token_file : Text
token_file = lit "dump_offline.resume.json"

offline_split :
    trace_of world off
    ≡ take 3 (trace_of world off)
      ++ saved token_file analyzed_token true ∷ drop 4 (trace_of world off)
unfolding run ◌>>=◌ lift lit validate validate_split_copy validate_online validate_cutover dispatch
    after_preflight preflight ask report run_offline load_or_init_resume pure fail
    run_source_vacuum_stage has new_token attempt maybe_vacuum_source mark_on_success save_resume
    mark prepare_split prepare_split_for dump_path_or_default resume_path dump_stage run_dump
    dump_request check_cancel restore_stage restore for_sections restore_section run_restore
    restore_request after_section run_split_copy_stage run_pg_restore tolerate
    run_target_analyze_stage maybe_analyze_target run_verify_stage judge all_match mismatches filter
    summary_line default_resume_path config_hash mode_name verify_row_counts selected qualified
    select_tables_to_verify filter_tables_by_exclusions keeps_table mem_text text_eq int_eq
    count_in_workers join_workers worker count_all count_table count_split compared target_count
    chunks chunk_size rsplit_once run_offline_preflight run_online_preflight passed
    extensions_checked snapshot_timeouts_if_split note summary_items resolve_extension_preflight
    verify_pg_tools_installed check_tools classify_version_check verify_pg_dump_version_compat
    capture_tool_version captured_output server_major_version connect_or_maintenance parsed_version
    parse_pg_dump_version marked_version after_marker first_word_number leading_number major_of
    decide_pg_dump_compat decide_pg_restore_compat verify_source_replication_role
    verify_target_not_in_recovery ensure_target_database_exists verify_target_role_privileges
    target_role_privilege_decision verify_source_snapshot_timeouts classify_snapshot_timeout
    verify_target_extensions_available decide_extensions_available missing_extensions
    role_has_replication_or_super target_role_privilege_info is_in_recovery
    subscription_capacity_gucs idle_in_transaction_timeout_ms installed_and_available_extensions
    check_guc verify_source_logical_replication_ready verify_target_subscription_capacity
    classify_subscription_capacity ensure_pglogical_not_interfering int_ltb split_at_text
    strip_prefix split_whitespace take_digits is_ascii_digit parse_unsigned is_whitespace any
    split_char trim trim_end trim_start run_source_vacuum run_target_analyze maintain
    build_analyze_sql build_vacuum_analyze_sql
offline_split = refl

saved_tokens_are_honest_example :
    (has_stage Token.restore (found world off offline)
      || done (drop 4 (trace_of world off)) Token.restore)
    ≡ true
unfolding has mark
saved_tokens_are_honest_example =
    saved_tokens_are_honest world off (take 3 (trace_of world off)) (drop 4 (trace_of world off))
      token_file analyzed_token true Token.restore offline_split refl

offline_counted :
    trace_of world off
    ≡ take 2 (trace_of world off) ++ called verify_counts true ∷ drop 3 (trace_of world off)
unfolding run ◌>>=◌ lift lit validate validate_split_copy validate_online validate_cutover dispatch
    after_preflight preflight ask report run_offline load_or_init_resume pure fail
    run_source_vacuum_stage has new_token attempt maybe_vacuum_source mark_on_success save_resume
    mark prepare_split prepare_split_for dump_path_or_default resume_path dump_stage run_dump
    dump_request check_cancel restore_stage restore for_sections restore_section run_restore
    restore_request after_section run_split_copy_stage run_pg_restore tolerate
    run_target_analyze_stage maybe_analyze_target run_verify_stage judge all_match mismatches filter
    summary_line default_resume_path config_hash mode_name verify_row_counts selected qualified
    select_tables_to_verify filter_tables_by_exclusions keeps_table mem_text text_eq int_eq
    count_in_workers join_workers worker count_all count_table count_split compared target_count
    chunks chunk_size rsplit_once run_offline_preflight run_online_preflight passed
    extensions_checked snapshot_timeouts_if_split note summary_items resolve_extension_preflight
    verify_pg_tools_installed check_tools classify_version_check verify_pg_dump_version_compat
    capture_tool_version captured_output server_major_version connect_or_maintenance parsed_version
    parse_pg_dump_version marked_version after_marker first_word_number leading_number major_of
    decide_pg_dump_compat decide_pg_restore_compat verify_source_replication_role
    verify_target_not_in_recovery ensure_target_database_exists verify_target_role_privileges
    target_role_privilege_decision verify_source_snapshot_timeouts classify_snapshot_timeout
    verify_target_extensions_available decide_extensions_available missing_extensions
    role_has_replication_or_super target_role_privilege_info is_in_recovery
    subscription_capacity_gucs idle_in_transaction_timeout_ms installed_and_available_extensions
    check_guc verify_source_logical_replication_ready verify_target_subscription_capacity
    classify_subscription_capacity ensure_pglogical_not_interfering int_ltb split_at_text
    strip_prefix split_whitespace take_digits is_ascii_digit parse_unsigned is_whitespace any
    split_char trim trim_end trim_start run_source_vacuum run_target_analyze maintain
    build_analyze_sql build_vacuum_analyze_sql
offline_counted = refl

analyze_before : In (called analyze_target true) (drop 3 (trace_of world off))
unfolding run ◌>>=◌ lift lit validate validate_split_copy validate_online validate_cutover dispatch
    after_preflight preflight ask report run_offline load_or_init_resume pure fail
    run_source_vacuum_stage has new_token attempt maybe_vacuum_source mark_on_success save_resume
    mark prepare_split prepare_split_for dump_path_or_default resume_path dump_stage run_dump
    dump_request check_cancel restore_stage restore for_sections restore_section run_restore
    restore_request after_section run_split_copy_stage run_pg_restore tolerate
    run_target_analyze_stage maybe_analyze_target run_verify_stage judge all_match mismatches filter
    summary_line default_resume_path config_hash mode_name verify_row_counts selected qualified
    select_tables_to_verify filter_tables_by_exclusions keeps_table mem_text text_eq int_eq
    count_in_workers join_workers worker count_all count_table count_split compared target_count
    chunks chunk_size rsplit_once run_offline_preflight run_online_preflight passed
    extensions_checked snapshot_timeouts_if_split note summary_items resolve_extension_preflight
    verify_pg_tools_installed check_tools classify_version_check verify_pg_dump_version_compat
    capture_tool_version captured_output server_major_version connect_or_maintenance parsed_version
    parse_pg_dump_version marked_version after_marker first_word_number leading_number major_of
    decide_pg_dump_compat decide_pg_restore_compat verify_source_replication_role
    verify_target_not_in_recovery ensure_target_database_exists verify_target_role_privileges
    target_role_privilege_decision verify_source_snapshot_timeouts classify_snapshot_timeout
    verify_target_extensions_available decide_extensions_available missing_extensions
    role_has_replication_or_super target_role_privilege_info is_in_recovery
    subscription_capacity_gucs idle_in_transaction_timeout_ms installed_and_available_extensions
    check_guc verify_source_logical_replication_ready verify_target_subscription_capacity
    classify_subscription_capacity ensure_pglogical_not_interfering int_ltb split_at_text
    strip_prefix split_whitespace take_digits is_ascii_digit parse_unsigned is_whitespace any
    split_char trim trim_end trim_start run_source_vacuum run_target_analyze maintain
    build_analyze_sql build_vacuum_analyze_sql
analyze_before = inr (inl refl)

calls_ordered_example :
    (rank (called verify_counts true) ≡ 0)
    ⊎ (rank (called analyze_target true) ≤ rank (called verify_counts true))
calls_ordered_example =
    calls_ordered world off (take 2 (trace_of world off)) (drop 3 (trace_of world off))
      (called verify_counts true) offline_counted (called analyze_target true) analyze_before

-- a run that resumes after a dump
abbrev again : Migrator
again = record {
  config = record off.config { resume = true; dump_path = some (lit "archive") };
  dump_path = none;
}

abbrev dumped_token : ResumeToken
dumped_token = mark Token.dump (new_token world.hasher off.config (lit "archive"))

abbrev later_world : World
later_world = record world {
  read_token = λ p. read (lit "token");
  from_slice = λ bytes. some dumped_token;
}

analyzed_again : In (called analyze_target true) (trace_of later_world again)
unfolding run ◌>>=◌ lift lit validate validate_split_copy validate_online validate_cutover dispatch
    after_preflight preflight ask report run_offline load_or_init_resume pure fail
    run_source_vacuum_stage has new_token attempt maybe_vacuum_source mark_on_success save_resume
    mark prepare_split prepare_split_for dump_path_or_default resume_path dump_stage run_dump
    dump_request check_cancel restore_stage restore for_sections restore_section run_restore
    restore_request after_section run_split_copy_stage run_pg_restore tolerate
    run_target_analyze_stage maybe_analyze_target run_verify_stage judge all_match mismatches filter
    summary_line default_resume_path config_hash mode_name verify_row_counts selected qualified
    select_tables_to_verify filter_tables_by_exclusions keeps_table mem_text text_eq int_eq
    count_in_workers join_workers worker count_all count_table count_split compared target_count
    chunks chunk_size rsplit_once run_offline_preflight run_online_preflight passed
    extensions_checked snapshot_timeouts_if_split note summary_items resolve_extension_preflight
    verify_pg_tools_installed check_tools classify_version_check verify_pg_dump_version_compat
    capture_tool_version captured_output server_major_version connect_or_maintenance parsed_version
    parse_pg_dump_version marked_version after_marker first_word_number leading_number major_of
    decide_pg_dump_compat decide_pg_restore_compat verify_source_replication_role
    verify_target_not_in_recovery ensure_target_database_exists verify_target_role_privileges
    target_role_privilege_decision verify_source_snapshot_timeouts classify_snapshot_timeout
    verify_target_extensions_available decide_extensions_available missing_extensions
    role_has_replication_or_super target_role_privilege_info is_in_recovery
    subscription_capacity_gucs idle_in_transaction_timeout_ms installed_and_available_extensions
    check_guc verify_source_logical_replication_ready verify_target_subscription_capacity
    classify_subscription_capacity ensure_pglogical_not_interfering int_ltb split_at_text
    strip_prefix split_whitespace take_digits is_ascii_digit parse_unsigned is_whitespace any
    split_char trim trim_end trim_start run_source_vacuum run_target_analyze maintain
    build_analyze_sql build_vacuum_analyze_sql init_resume resumed load check_compatible
analyzed_again = inr (inr (inr (inr (inl refl))))

completed_stages_not_repeated_example :
    let before = found later_world again offline in
    (before.has_source_vacuum ≡ true → ¬ (Makes later_world again vacuum_source))
    × (before.has_dump ≡ true
        → ((req : DumpRequest) → ¬ (Makes later_world again (pg_dump req)))
          × ¬ (Makes later_world again prepare_slot)
          × ((name : Text)
              → ¬ (Makes later_world again (ensure_publication name))
                × ¬ (Makes later_world again (verify_publication name))))
    × (before.has_restore ≡ true
        → ((req : RestoreRequest) → ¬ (Makes later_world again (pg_restore req)))
          × ((conn : Text) (tables : List SplitTable) (truncate : Bool)
              → ¬ (Makes later_world again (split_copy conn tables truncate))))
    × (before.has_analyze ≡ true → ¬ (Makes later_world again analyze_target))
completed_stages_not_repeated_example = completed_stages_not_repeated later_world again

-- an online run that ends in a cutover
abbrev phase : Finished
phase = record {
  attached = create_subscription (lit "sub") (lit "postgres://u@h/d") (lit "pub") (lit "slot") ∷ [];
  torn_down = disable (lit "sub") ∷ detach_slot (lit "sub") ∷ drop_subscription (lit "sub") ∷ [];
  events = record { stage = Progress.cutover; message = cutover_requested } ∷ [];
  outcome = ok (record {
    last_applied_lsn = 0;
    last_received_lsn = 0;
    last_lag_bytes = 0;
    cutover_triggered = true;
  });
}

online_dropped :
    trace_of world on
    ≡ take 1 (trace_of world on) ++ called drop_slot true ∷ drop 2 (trace_of world on)
unfolding run ◌>>=◌ lift lit validate validate_split_copy validate_online validate_cutover dispatch
    after_preflight preflight ask report run_offline load_or_init_resume pure fail
    run_source_vacuum_stage has new_token attempt maybe_vacuum_source mark_on_success save_resume
    mark prepare_split prepare_split_for dump_path_or_default resume_path dump_stage run_dump
    dump_request check_cancel restore_stage restore for_sections restore_section run_restore
    restore_request after_section run_split_copy_stage run_pg_restore tolerate
    run_target_analyze_stage maybe_analyze_target run_verify_stage judge all_match mismatches filter
    summary_line default_resume_path config_hash mode_name verify_row_counts selected qualified
    select_tables_to_verify filter_tables_by_exclusions keeps_table mem_text text_eq int_eq
    count_in_workers join_workers worker count_all count_table count_split compared target_count
    chunks chunk_size rsplit_once run_offline_preflight run_online_preflight passed
    extensions_checked snapshot_timeouts_if_split note summary_items resolve_extension_preflight
    verify_pg_tools_installed check_tools classify_version_check verify_pg_dump_version_compat
    capture_tool_version captured_output server_major_version connect_or_maintenance parsed_version
    parse_pg_dump_version marked_version after_marker first_word_number leading_number major_of
    decide_pg_dump_compat decide_pg_restore_compat verify_source_replication_role
    verify_target_not_in_recovery ensure_target_database_exists verify_target_role_privileges
    target_role_privilege_decision verify_source_snapshot_timeouts classify_snapshot_timeout
    verify_target_extensions_available decide_extensions_available missing_extensions
    role_has_replication_or_super target_role_privilege_info is_in_recovery
    subscription_capacity_gucs idle_in_transaction_timeout_ms installed_and_available_extensions
    check_guc verify_source_logical_replication_ready verify_target_subscription_capacity
    classify_subscription_capacity ensure_pglogical_not_interfering int_ltb split_at_text
    strip_prefix split_whitespace take_digits is_ascii_digit parse_unsigned is_whitespace any
    split_char trim trim_end trim_start run_source_vacuum run_target_analyze maintain
    build_analyze_sql build_vacuum_analyze_sql drop_source_slot drop_source_publication
    force_clean_stale_state run_online force_clean_stage call prepare_stage publication_stage
    note_created slot_stage release_subscription best_effort run_native_engine apply_phase
    subscription_source run_native_apply attach execute teardown_subscription start run_loop step
    new_sampler sequences_stage cleanup_stage cleanup_source_after_cutover drop_created_publication
    drop_slot_after_cutover prepare_replication_slot sync_sequences collect_source_sequences
    apply_sequences_to_target advanced apply_actionable apply_single build_setval_sql qualified_name
    value_or_zero ensure_publication_exists create_publication fetch_if_needed effective_scope
    build_create_publication_sql scope_sql
online_dropped = refl

cleanup_only_after_cutover_example : any cuts_over (drop 2 (trace_of world on)) ≡ true
cleanup_only_after_cutover_example =
    cleanup_only_after_cutover world on (take 1 (trace_of world on)) (drop 2 (trace_of world on))
      drop_slot true online_dropped refl

online_applied :
    trace_of world on ≡ take 10 (trace_of world on) ++ applied phase ∷ drop 11 (trace_of world on)
unfolding run ◌>>=◌ lift lit validate validate_split_copy validate_online validate_cutover dispatch
    after_preflight preflight ask report run_offline load_or_init_resume pure fail
    run_source_vacuum_stage has new_token attempt maybe_vacuum_source mark_on_success save_resume
    mark prepare_split prepare_split_for dump_path_or_default resume_path dump_stage run_dump
    dump_request check_cancel restore_stage restore for_sections restore_section run_restore
    restore_request after_section run_split_copy_stage run_pg_restore tolerate
    run_target_analyze_stage maybe_analyze_target run_verify_stage judge all_match mismatches filter
    summary_line default_resume_path config_hash mode_name verify_row_counts selected qualified
    select_tables_to_verify filter_tables_by_exclusions keeps_table mem_text text_eq int_eq
    count_in_workers join_workers worker count_all count_table count_split compared target_count
    chunks chunk_size rsplit_once run_offline_preflight run_online_preflight passed
    extensions_checked snapshot_timeouts_if_split note summary_items resolve_extension_preflight
    verify_pg_tools_installed check_tools classify_version_check verify_pg_dump_version_compat
    capture_tool_version captured_output server_major_version connect_or_maintenance parsed_version
    parse_pg_dump_version marked_version after_marker first_word_number leading_number major_of
    decide_pg_dump_compat decide_pg_restore_compat verify_source_replication_role
    verify_target_not_in_recovery ensure_target_database_exists verify_target_role_privileges
    target_role_privilege_decision verify_source_snapshot_timeouts classify_snapshot_timeout
    verify_target_extensions_available decide_extensions_available missing_extensions
    role_has_replication_or_super target_role_privilege_info is_in_recovery
    subscription_capacity_gucs idle_in_transaction_timeout_ms installed_and_available_extensions
    check_guc verify_source_logical_replication_ready verify_target_subscription_capacity
    classify_subscription_capacity ensure_pglogical_not_interfering int_ltb split_at_text
    strip_prefix split_whitespace take_digits is_ascii_digit parse_unsigned is_whitespace any
    split_char trim trim_end trim_start run_source_vacuum run_target_analyze maintain
    build_analyze_sql build_vacuum_analyze_sql drop_source_slot drop_source_publication
    force_clean_stale_state run_online force_clean_stage call prepare_stage publication_stage
    note_created slot_stage release_subscription best_effort run_native_engine apply_phase
    subscription_source run_native_apply attach execute teardown_subscription start run_loop step
    new_sampler sequences_stage cleanup_stage cleanup_source_after_cutover drop_created_publication
    drop_slot_after_cutover prepare_replication_slot sync_sequences collect_source_sequences
    apply_sequences_to_target advanced apply_actionable apply_single build_setval_sql qualified_name
    value_or_zero ensure_publication_exists create_publication fetch_if_needed effective_scope
    build_create_publication_sql scope_sql
online_applied = refl

apply_only_after_wait_example : any (did is_wait) (drop 11 (trace_of world on)) ≡ true
apply_only_after_wait_example =
    apply_only_after_wait world on (take 10 (trace_of world on)) (drop 11 (trace_of world on)) phase
      online_applied

-- a standalone verification
abbrev checker : Migrator
checker = migrator_of verify

verify_mode_reads_only_example : any writes (trace_of world checker) ≡ false
verify_mode_reads_only_example = verify_mode_reads_only world checker refl

checker-value : (run world checker []).0 ≡ value (record { stats = none; dump_path = [] })
unfolding run ◌>>=◌ lift lit validate validate_split_copy validate_online validate_cutover dispatch
    after_preflight preflight ask report run_offline load_or_init_resume pure fail
    run_source_vacuum_stage has new_token attempt maybe_vacuum_source mark_on_success save_resume
    mark prepare_split prepare_split_for dump_path_or_default resume_path dump_stage run_dump
    dump_request check_cancel restore_stage restore for_sections restore_section run_restore
    restore_request after_section run_split_copy_stage run_pg_restore tolerate
    run_target_analyze_stage maybe_analyze_target run_verify_stage judge all_match mismatches filter
    summary_line default_resume_path config_hash mode_name verify_row_counts selected qualified
    select_tables_to_verify filter_tables_by_exclusions keeps_table mem_text text_eq int_eq
    count_in_workers join_workers worker count_all count_table count_split compared target_count
    chunks chunk_size rsplit_once run_offline_preflight run_online_preflight passed
    extensions_checked snapshot_timeouts_if_split note summary_items resolve_extension_preflight
    verify_pg_tools_installed check_tools classify_version_check verify_pg_dump_version_compat
    capture_tool_version captured_output server_major_version connect_or_maintenance parsed_version
    parse_pg_dump_version marked_version after_marker first_word_number leading_number major_of
    decide_pg_dump_compat decide_pg_restore_compat verify_source_replication_role
    verify_target_not_in_recovery ensure_target_database_exists verify_target_role_privileges
    target_role_privilege_decision verify_source_snapshot_timeouts classify_snapshot_timeout
    verify_target_extensions_available decide_extensions_available missing_extensions
    role_has_replication_or_super target_role_privilege_info is_in_recovery
    subscription_capacity_gucs idle_in_transaction_timeout_ms installed_and_available_extensions
    check_guc verify_source_logical_replication_ready verify_target_subscription_capacity
    classify_subscription_capacity ensure_pglogical_not_interfering int_ltb split_at_text
    strip_prefix split_whitespace take_digits is_ascii_digit parse_unsigned is_whitespace any
    split_char trim trim_end trim_start run_source_vacuum run_target_analyze maintain
    build_analyze_sql build_vacuum_analyze_sql run_verify
checker-value = refl

verify_mode-success_example :
    (r : VerifyReport) × (verify_row_counts (world.counters []) checker.config ≡ ok r)
    × (mismatches r ≡ [])
verify_mode-success_example =
    verify_mode-success world checker (record { stats = none; dump_path = [] }) refl checker-value
