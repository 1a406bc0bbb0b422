-- ===== src/Orchestrator/Setup.antt =====
-- The requests, the token and the steps before the dump that `Migrator::run_offline` and
-- `Migrator::run_online` share (pg_dbmigrator/src/orchestrator.rs). The snapshot that an offline run
-- holds open is only its name.
use pg_migrator.Verify.Report.{VerifyReport}
use pg_migrator.Verify.Counts.{verify_row_counts}
use pg_migrator.Sequences.{sync_sequences}
use pg_migrator.Snapshot.{prepare_replication_slot}
use pg_migrator.Publication.{ensure_publication_exists}
use pg_migrator.Base.{
  Bool, ℕ, Text, Option, none, some, List, [], ◌∷◌, map, true, ◌||◌, ltb, is_empty, if◌then◌else◌,
}
use pg_migrator.Error.{Result, ok, err, config, cancelled, split_without_snapshot, is_ok}
use pg_migrator.Config.{MigrationConfig, is_online}
use pg_migrator.Progress.{
  MigrationStage, Message, starting, complete_with_timing, skipped_resume, section_complete,
  split_copied, split_planned, split_below_threshold, verify_skipped,
}
use pg_migrator.Progress
use pg_migrator.Dump.{custom, directory, DumpRequest}
use pg_migrator.Restore.Command.{RestoreSection, RestoreRequest}
use pg_migrator.Resume.Token.{
  CompletedStage, ResumeToken, new_token, check_compatible, mark, has, default_resume_path,
}
use pg_migrator.Resume.Token
use pg_migrator.Maintenance.{run_source_vacuum, run_target_analyze}
use pg_migrator.Resume.File.{load}
use pg_migrator.CopySplit.Pages.{SplitTable}
use pg_migrator.Orchestrator.Trace.{
  Trace, vacuum_source, analyze_target, export_snapshot, plan_tables, saved, World, Act, value,
  pure, fail, lift, ask, attempt, ◌>>=◌, ◌>>◌, report,
}

-- The fields of `Migrator` that a run reads.
pub record Migrator : Type 0 where
  pub config : MigrationConfig
  pub dump_path : Option Text

pub record SplitContext : Type 0 where
  pub plan : List SplitTable
  pub snapshot_id : Text

abbrev pub split_snapshot : Option SplitContext → Option Text
split_snapshot none = none
split_snapshot (some s) = some s.snapshot_id

-- `split.map(|s| s.plan.iter().map(|t| t.table.clone()).collect()).unwrap_or_default()`
abbrev pub split_names : Option SplitContext → List Text
split_names none = []
split_names (some s) = map (λ (t : SplitTable). t.table) s.plan

module _ (w : World) (m : Migrator) where
  unfoldable pub dump_path_or_default : Text → Text
  dump_path_or_default prefix = elim m.dump_path [
    | some p ↦ p
    | none ↦ elim m.config.dump_path [ some p ↦ p | none ↦ w.temp_path prefix ]
  ]

  unfoldable pub resume_path : Text → Text
  resume_path path = elim m.config.resume_file [ some p ↦ p | none ↦ default_resume_path path ]

  unfoldable pub dump_request : Text → Option Text → Option SplitContext → DumpRequest
  dump_request path snapshot split = record {
    source = m.config.source;
    scope = m.config.dump_scope;
    jobs = m.config.jobs;
    snapshot = snapshot;
    schemas = m.config.schemas;
    tables = m.config.tables;
    exclude_schemas = m.config.exclude_schemas;
    exclude_tables = m.config.exclude_tables;
    exclude_table_data = split_names split;
    output_path = path;
    format = if ltb 1 m.config.jobs then directory else custom;
    no_publications = m.config.no_publications;
    no_subscriptions = m.config.no_subscriptions;
    compress = m.config.dump_compress;
    no_sync = m.config.no_sync;
    no_comments = m.config.no_comments;
    no_security_labels = m.config.no_security_labels;
    no_table_access_method = m.config.no_table_access_method;
  }

  unfoldable pub restore_request : Text → Option RestoreSection → RestoreRequest
  restore_request path section = record {
    target = m.config.target;
    input_path = path;
    jobs = m.config.jobs;
    clean = m.config.drop_target_first;
    no_owner = true;
    no_acl = true;
    tolerate_errors = m.config.allow_restore_errors;
    section = section;
  }

  -- `verify_row_counts(&self.config, cancel)`
  abbrev pub counting : Trace → Result VerifyReport
  counting tr = verify_row_counts (w.counters tr) m.config

  -- `prepare_replication_slot` on the source with the online options
  abbrev pub preparing : Trace → Result (Option Text)
  preparing tr =
      prepare_replication_slot (w.streams tr) m.config.source.connection_string m.config.online

  -- `run_source_vacuum` and `run_target_analyze` with the configuration's schemas
  abbrev pub vacuuming : Trace → Result (Unit {0})
  vacuuming tr =
      (run_source_vacuum (w.maintenance tr) m.config.source.connection_string m.config.schemas
        m.config.verbose).result

  abbrev pub analyzing : Trace → Result (Unit {0})
  analyzing tr =
      (run_target_analyze (w.maintenance tr) m.config.target.connection_string m.config.schemas
        m.config.verbose).result

  -- `sync_sequences` with the configuration's schemas
  abbrev pub syncing : Trace → Result ℕ
  syncing tr = sync_sequences (w.sequences tr) m.config.schemas

  -- `ensure_publication_exists` with the configuration's lists
  abbrev pub ensuring : Trace → Result Bool
  ensuring tr =
      ensure_publication_exists (w.source tr) m.config.online.publication m.config.tables
        m.config.schemas m.config.exclude_tables m.config.exclude_schemas

  -- `if cancel.is_cancelled() { return Err(MigrationError::Cancelled) }`
  unfoldable pub check_cancel : Act (Unit {0})
  check_cancel tr = if w.is_cancelled tr then fail cancelled tr else pure tt tr

  unfoldable pub save_resume : ResumeToken → Text → Act (Unit {0})
  save_resume token path tr =
      let file = resume_path path in
      (value tt, saved file token (is_ok (w.write_token file token tr)) ∷ tr)

  -- the token that a resumed run starts from
  unfoldable pub resumed : ResumeToken → Act ResumeToken
  resumed token = do lift (check_compatible w.hasher token m.config); pure token

  -- the token for what was read
  unfoldable pub init_resume : Text → Result (Option ResumeToken) → Act ResumeToken
  init_resume path (err e) = fail e
  init_resume path (ok none) = pure (new_token w.hasher m.config path)
  init_resume path (ok (some token)) = resumed token

  unfoldable pub load_or_init_resume : Text → Act ResumeToken
  load_or_init_resume path =
      if m.config.resume
      then init_resume path (load w.from_slice (w.read_token (resume_path path)))
      else pure (new_token w.hasher m.config path)

  -- mark a stage whose call succeeded and save, or go on with the token as it was
  unfoldable pub mark_on_success :
      CompletedStage → ResumeToken → Text → Result (Unit {0}) → Act ResumeToken
  mark_on_success stage token path (err e) = pure token
  mark_on_success stage token path (ok _) = do
    save_resume (mark stage token) path
    pure (mark stage token)

  -- `maybe_vacuum_source` of analyze.rs
  unfoldable pub maybe_vacuum_source : Act (Unit {0})
  maybe_vacuum_source = if m.config.skip_source_vacuum then pure tt else ask vacuum_source vacuuming

  -- `maybe_analyze_target` of analyze.rs
  unfoldable pub maybe_analyze_target : Act (Unit {0})
  maybe_analyze_target = if m.config.skip_analyze then pure tt else ask analyze_target analyzing

  unfoldable pub run_source_vacuum_stage : ResumeToken → Text → Act ResumeToken
  run_source_vacuum_stage token path =
      if m.config.skip_source_vacuum || has token Token.source_vacuum then pure token else do
        report Progress.source_vacuum starting
        r ← attempt maybe_vacuum_source
        mark_on_success Token.source_vacuum token path r

  unfoldable pub run_target_analyze_stage : ResumeToken → Text → Act ResumeToken
  run_target_analyze_stage token path =
      if m.config.skip_analyze || has token Token.analyze then pure token else do
        report Progress.analyze starting
        r ← attempt maybe_analyze_target
        mark_on_success Token.analyze token path r

  -- the snapshot of `prepare_split`
  unfoldable pub split_snapshot_id : Option Text → Act Text
  split_snapshot_id (some id) = pure id
  split_snapshot_id none =
      if is_online m.config.mode
      then fail (config split_without_snapshot)
      else ask export_snapshot w.exported

  unfoldable pub split_context : Option Text → List SplitTable → Act (Option SplitContext)
  split_context existing plan = do
    id ← split_snapshot_id existing
    report Progress.dump
        (split_planned (map (λ (t : SplitTable). (t.table, t.bytes)) plan) m.config.split_max_parts)
    pure (some (record { plan = plan; snapshot_id = id }))

  unfoldable pub prepare_split_above : Option Text → ℕ → Act (Option SplitContext)
  prepare_split_above existing threshold = do
    plan ← ask (plan_tables threshold m.config.split_max_parts) w.planned
    if is_empty plan
        then (report Progress.dump (split_below_threshold threshold) >> pure none)
        else split_context existing plan

  unfoldable pub prepare_split_for : Option Text → Option ℕ → Act (Option SplitContext)
  prepare_split_for existing none = pure none
  prepare_split_for existing (some threshold) = prepare_split_above existing threshold

  unfoldable pub prepare_split : Option Text → Act (Option SplitContext)
  prepare_split existing = prepare_split_for existing m.config.split_tables_larger_than
