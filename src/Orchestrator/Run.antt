-- ===== src/Orchestrator/Run.antt =====
-- `Migrator::run`, `run_offline`, `run_online` and `cleanup_source_after_cutover`
-- (pg_dbmigrator/src/orchestrator.rs).
use pg_migrator.Publication.{verify_publication_exists}
use pg_migrator.Base.{
  ℕ, Text, lit, Option, none, some, [], ◌∷◌, Bool, true, false, not, ◌&&◌, if◌then◌else◌,
}
use pg_migrator.Error.{Result, ok, err, config, cancelled, verification_failed}
use pg_migrator.Config.{MigrationMode, offline, online, verify, validate}
use pg_migrator.Progress.{
  Message, starting, starting_with_snapshot, skipped_resume, sequences_start, sequences_synced,
  sequences_failed, preflight_summary, ensuring_publication, verifying_publication,
  dropping_publication, dropping_slot, finished,
}
use pg_migrator.Progress
use pg_migrator.Resume.Token.{ResumeToken, mark, has}
use pg_migrator.Resume.Token
use pg_migrator.Preflight.Probes.{Probe}
use pg_migrator.Preflight.Decisions.{PreflightReport, summary_items}
use pg_migrator.Preflight.Bundles.{run_offline_preflight, run_online_preflight}
use pg_migrator.Verify.Report.{all_match, summary_line}
use pg_migrator.Apply.Loop.{ApplyStats}
use pg_migrator.Apply.Stale.{force_clean_stale_state, drop_source_slot, drop_source_publication}
use pg_migrator.Apply.Teardown.{Finished, run_native_apply}
use pg_migrator.Orchestrator.Trace.{
  Trace, Call, offline_preflight, online_preflight, force_clean, prepare_slot, disable_subscription,
  wait_slot_inactive, connect_target, connect_lag, sync_sequences, drop_slot, ensure_publication,
  verify_publication, drop_publication, verify_counts, applied, World, Act, waiting, pure, fail,
  lift, from_result, ask, attempt, ◌>>=◌, ◌>>◌, report,
}
use pg_migrator.Orchestrator.Setup.{
  ensuring, counting, syncing, preparing, Migrator, split_snapshot, dump_path_or_default,
  check_cancel, save_resume, load_or_init_resume, run_source_vacuum_stage, run_target_analyze_stage,
  prepare_split,
}
use pg_migrator.Orchestrator.Stages.{dump_stage, restore_stage, run_verify_stage}

pub record MigrationOutcome : Type 0 where
  pub stats : Option ApplyStats
  pub dump_path : Text

-- `MigrationOutcome::cutover_triggered`
unfoldable pub cutover_triggered : MigrationOutcome → Bool
cutover_triggered o = elim o.stats [ none ↦ false | some s ↦ s.cutover_triggered ]

module _ (w : World) (m : Migrator) where
  -- what a call that returns nothing answers; disabling the subscription never fails
  abbrev pub answered : Call → Trace → Result (Unit {0})
  answered force_clean past =
      (force_clean_stale_state (w.admin past) m.config.source.connection_string
        m.config.target.connection_string m.config.online).result
  answered disable_subscription past = ok tt
  answered drop_slot past =
      (drop_source_slot (w.admin past) m.config.source.connection_string
        m.config.online.slot_name).result
  answered (drop_publication name) past =
      (drop_source_publication (w.admin past) m.config.source.connection_string name).result
  answered (verify_publication name) past = verify_publication_exists (w.source past) name
  answered c past = w.answer c past

  -- a call that returns nothing
  unfoldable pub call : Call → Act (Unit {0})
  call c = ask c (answered c)

  -- `if let Err(e) = call { warn!(..) }`
  unfoldable pub best_effort : Call → Act (Unit {0})
  best_effort c = attempt (call c) >> pure tt

  unfoldable pub run_offline : Act MigrationOutcome
  run_offline =
      let path = dump_path_or_default w m (lit "dump_offline") in
      do
        loaded ← load_or_init_resume w m path
        vacuumed ← run_source_vacuum_stage w m loaded path
        split ← prepare_split w m none
        dumped ← dump_stage w m vacuumed path (split_snapshot split) split starting
        restored ← restore_stage w m dumped path split (pure tt)
        analyzed ← run_target_analyze_stage w m restored path
        run_verify_stage w m
        report Progress.complete finished
        pure (record { stats = none; dump_path = path })

  -- the token once the publication is known to exist
  unfoldable pub note_created : ResumeToken → Text → Bool → Act ResumeToken
  note_created token path false = pure token
  note_created token path true = do
    save_resume w m (record token { pub_auto_created = true }) path
    pure (record token { pub_auto_created = true })

  unfoldable pub publication_stage : ResumeToken → Text → Act ResumeToken
  publication_stage token path =
      let name = m.config.online.publication in
      if not m.config.online.auto_create_publication
      then (report Progress.validate verifying_publication
          >> call (verify_publication name)
          >> pure token)
      else do
        report Progress.validate ensuring_publication
        created ← ask (ensure_publication name) (ensuring w m)
        note_created token path created

  unfoldable pub slot_stage : ResumeToken → Text → Act ResumeToken
  slot_stage token path = do
    report Progress.prepare_snapshot starting
    snapshot ← ask prepare_slot (preparing w m)
    let token' = record (mark Token.prepare_snapshot token) { snapshot_name = snapshot }
    save_resume w m token' path
    pure token'

  -- publication, slot and snapshot, unless the dump of an earlier run is complete
  unfoldable pub prepare_stage : ResumeToken → Text → Act ResumeToken
  prepare_stage token path =
      if has token Token.dump
      then (report Progress.prepare_snapshot skipped_resume >> pure token)
      else do published ← publication_stage token path; slot_stage published path

  unfoldable pub force_clean_stage : Act (Unit {0})
  force_clean_stage =
      if m.config.online.force_clean
      then (report Progress.validate Progress.force_clean >> call force_clean)
      else pure tt

  -- `disable_target_subscription`, which returns nothing, on a resumed run
  unfoldable pub release_subscription : Act (Unit {0})
  release_subscription = if m.config.resume then best_effort disable_subscription else pure tt

  -- the source's connection string as the subscription names it
  unfoldable pub subscription_source : Text
  subscription_source = elim m.config.online.subscription_source_conn [
    | some conn ↦ conn
    | none ↦ m.config.source.connection_string
  ]

  abbrev pub finish_apply : Option Finished → Act ApplyStats
  finish_apply none tr = (waiting, tr)
  finish_apply (some f) tr = (from_result f.outcome, applied f ∷ tr)

  unfoldable pub apply_phase : Act ApplyStats
  apply_phase tr =
      finish_apply
        (run_native_apply (w.apply_target tr) m.config.online subscription_source (w.ticks tr)) tr

  unfoldable pub run_native_engine : Act ApplyStats
  run_native_engine = do
    call connect_target
    report Progress.stream_apply starting
    call connect_lag
    apply_phase

  abbrev pub sequences_message : Result ℕ → Message
  sequences_message (ok n) = sequences_synced n
  sequences_message (err e) = sequences_failed

  unfoldable pub sequences_stage : ApplyStats → Act (Unit {0})
  sequences_stage stats =
      if not (stats.cutover_triggered && m.config.online.sync_sequences_on_cutover)
      then pure tt
      else do
        report Progress.cutover sequences_start
        r ← attempt (ask sync_sequences (syncing w m))
        report Progress.cutover (sequences_message r)

  unfoldable pub drop_created_publication : Bool → Act (Unit {0})
  drop_created_publication false = pure tt
  drop_created_publication true =
      report Progress.source_cleanup (dropping_publication m.config.online.publication)
      >> best_effort (drop_publication m.config.online.publication)

  unfoldable pub drop_slot_after_cutover : Act (Unit {0})
  drop_slot_after_cutover = if not m.config.online.drop_slot_on_cutover then pure tt else do
    report Progress.source_cleanup (dropping_slot m.config.online.slot_name)
    best_effort wait_slot_inactive
    best_effort drop_slot

  unfoldable pub cleanup_source_after_cutover : Bool → Act (Unit {0})
  cleanup_source_after_cutover pub_auto_created = do
    drop_created_publication pub_auto_created
    drop_slot_after_cutover

  unfoldable pub cleanup_stage : ApplyStats → ResumeToken → Act (Unit {0})
  cleanup_stage stats token =
      if stats.cutover_triggered
      then cleanup_source_after_cutover token.pub_auto_created
      else pure tt

  unfoldable pub run_online : Act MigrationOutcome
  run_online =
      let path = dump_path_or_default w m (lit "dump_online") in
      do
        force_clean_stage
        loaded ← load_or_init_resume w m path
        vacuumed ← run_source_vacuum_stage w m loaded path
        prepared ← prepare_stage vacuumed path
        split ← prepare_split w m prepared.snapshot_name
        dumped ←
            dump_stage w m prepared path prepared.snapshot_name split
              (starting_with_snapshot prepared.snapshot_name)
        restored ← restore_stage w m dumped path split (check_cancel w m)
        analyzed ← run_target_analyze_stage w m restored path
        release_subscription
        call wait_slot_inactive
        stats ← run_native_engine
        save_resume w m (record analyzed { last_applied_lsn = some stats.last_applied_lsn }) path
        sequences_stage stats
        cleanup_stage stats analyzed
        report Progress.complete finished
        pure (record { stats = some stats; dump_path = path })

  -- the standalone verification
  unfoldable pub run_verify : Act MigrationOutcome
  run_verify = do
    r ← ask verify_counts (counting w m)
    report Progress.verify (summary_line r)
    if not (all_match r)
        then fail (config verification_failed)
        else pure (record { stats = none; dump_path = [] })

  abbrev pub raced : Call → (Probe → Result PreflightReport) → Option Probe → Act PreflightReport
  raced c bundle none = fail cancelled
  raced c bundle (some p) = ask c (λ tr. bundle p)

  -- the preflight bundle, raced against the cancellation token
  unfoldable pub preflight : Call → (Probe → Result PreflightReport) → Act PreflightReport
  preflight c bundle tr = raced c bundle (w.probe tr) tr

  -- the rest of `run`, once the preflight bundle of its mode has passed
  unfoldable pub after_preflight :
      Call → (Probe → Result PreflightReport) → Act MigrationOutcome → Act MigrationOutcome
  after_preflight c bundle rest = do
    items ← preflight c bundle
    report Progress.validate (preflight_summary (summary_items items))
    rest

  unfoldable pub dispatch : MigrationMode → Act MigrationOutcome
  dispatch verify = run_verify
  dispatch offline =
      after_preflight offline_preflight (λ p. run_offline_preflight p m.config) run_offline
  dispatch online =
      after_preflight online_preflight (λ p. run_online_preflight p m.config) run_online

  unfoldable pub run : Act MigrationOutcome
  run = lift (validate m.config) >> dispatch m.config.mode
