-- ===== src/Orchestrator/Stages.antt =====
-- The dump, restore and verify steps that `Migrator::run_offline` and `Migrator::run_online` share
-- (pg_dbmigrator/src/orchestrator.rs).
use pg_migrator.Base.{Text, Option, none, some, List, [], ◌∷◌, not, ◌&&◌, length, if◌then◌else◌}
use pg_migrator.Error.{Result, ok, err, config, cancelled, split_without_snapshot, is_ok}
use pg_migrator.Error
use pg_migrator.Config.{MigrationConfig, MigrationMode, is_online}
use pg_migrator.Config
use pg_migrator.Progress.{
  MigrationStage, Message, starting, complete_with_timing, skipped_resume, section_complete,
  split_copied, split_planned, split_below_threshold, verify_skipped,
}
use pg_migrator.Progress
use pg_migrator.Dump.{DumpRequest, dump_invocation}
use pg_migrator.Restore.Command.{
  RestoreSection, pre_data, only_data, post_data, section_flag, restore_sections, RestoreRequest,
  run_pg_restore,
}
use pg_migrator.Resume.Token.{
  CompletedStage, ResumeToken, new_token, check_compatible, mark, has, default_resume_path,
}
use pg_migrator.Resume.Token
use pg_migrator.CopySplit.Run.{run_split_copy}
use pg_migrator.Verify.Report.{VerifyReport, all_match, summary_line}
use pg_migrator.Orchestrator.Trace.{
  pg_dump, pg_restore, split_copy, verify_counts, World, Act, pure, fail, ask, ◌>>=◌, ◌>>◌, report,
}
use pg_migrator.Orchestrator.Setup.{
  counting, Migrator, SplitContext, dump_request, restore_request, check_cancel, save_resume,
}

module _ (w : World) (m : Migrator) where
  -- `run_pg_dump` of dump.rs
  unfoldable pub run_dump : DumpRequest → Act (Unit {0})
  run_dump req = ask (pg_dump req) λ tr. w.runner tr (dump_invocation req)

  -- `run_pg_restore` of restore.rs
  unfoldable pub run_restore : RestoreRequest → Act (Unit {0})
  run_restore req = ask (pg_restore req) λ tr. run_pg_restore (w.is_dir tr) (w.runner tr) req

  -- the dump step of both modes, which differ in the first message
  unfoldable pub dump_stage :
      ResumeToken → Text → Option Text → Option SplitContext → Message → Act ResumeToken
  dump_stage token path snapshot split message =
      if has token Token.dump then (report Progress.dump skipped_resume >> pure token) else do
        report Progress.dump message
        run_dump (dump_request w m path snapshot split)
        check_cancel w m
        report Progress.dump complete_with_timing
        save_resume w m (mark Token.dump token) path
        pure (mark Token.dump token)

  unfoldable pub run_split_copy_stage : Option SplitContext → Act (Unit {0})
  run_split_copy_stage none = pure tt
  run_split_copy_stage (some split) = do
    rows ←
        ask (split_copy split.snapshot_id split.plan m.config.drop_target_first)
          λ tr. (run_split_copy (w.servers tr) m.config.drop_target_first split.plan).result
    report Progress.restore (split_copied rows (length split.plan))

  -- what follows a section: the split tables' rows, once the archive's own data is in
  unfoldable pub after_section : Option SplitContext → RestoreSection → Act (Unit {0})
  after_section split only_data = run_split_copy_stage split
  after_section split pre_data = pure tt
  after_section split post_data = pure tt

  -- one round of the loop over the sections
  unfoldable pub restore_section : Text → Option SplitContext → RestoreSection → Act (Unit {0})
  restore_section path split section = do
    check_cancel w m
    run_restore (restore_request w m path (some section))
    report Progress.restore (section_complete (section_flag section))
    after_section split section

  unfoldable pub for_sections : Text → Option SplitContext → List RestoreSection → Act (Unit {0})
  for_sections path split [] = pure tt
  for_sections path split (section ∷ rest) =
      restore_section path split section >> for_sections path split rest

  unfoldable pub restore : Text → Option SplitContext → Act (Unit {0})
  restore path split =
      if not m.config.split_sections
      then (run_restore (restore_request w m path none) >> run_split_copy_stage split)
      else for_sections path split restore_sections

  -- the restore step of both modes; the online one checks the token for cancellation after it
  unfoldable pub restore_stage :
      ResumeToken → Text → Option SplitContext → Act (Unit {0}) → Act ResumeToken
  restore_stage token path split last_check =
      if has token Token.restore then (report Progress.restore skipped_resume >> pure token) else do
        report Progress.restore starting
        restore path split
        last_check
        save_resume w m (mark Token.restore token) path
        pure (mark Token.restore token)

  -- the judgement of `run_verify_stage`
  unfoldable pub judge : VerifyReport → Act (Unit {0})
  judge r =
      if not (all_match r) && Config.is_strict m.config.verify
      then fail (config Error.verification_failed)
      else pure tt

  unfoldable pub run_verify_stage : Act (Unit {0})
  run_verify_stage =
      if Config.is_off m.config.verify
      then report Progress.verify verify_skipped
      else do r ← ask verify_counts (counting w m); report Progress.verify (summary_line r); judge r
