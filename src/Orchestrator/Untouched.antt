-- ===== src/Orchestrator/Untouched.antt =====
-- The stages of `Migrator` (pg_dbmigrator/src/orchestrator.rs) that neither dump nor copy tables
-- keep every property of traces that only these calls could break.
use pg_migrator.Base.{
  ℕ, Text, Option, none, some, Bool, true, false, not, ◌&&◌, ◌||◌, is_empty, List, refl, ◌≡◌,
}
use pg_migrator.Error.{Result, ok, err}
use pg_migrator.Config
use pg_migrator.Config.{is_online}
use pg_migrator.CopySplit.Pages.{SplitTable}
use pg_migrator.Resume.Token
use pg_migrator.Resume.Token.{CompletedStage, ResumeToken, has}
use pg_migrator.Apply.Loop.{ApplyStats}
use pg_migrator.Apply.Teardown.{Finished}
use pg_migrator.Verify.Report.{all_match}
use pg_migrator.Orchestrator.Trace.{
  Call, force_clean, vacuum_source, analyze_target, export_snapshot, verify_publication,
  ensure_publication, prepare_slot, disable_subscription, connect_target, connect_lag,
  sync_sequences, drop_publication, wait_slot_inactive, drop_slot, verify_counts, Trace, World,
}
use pg_migrator.Orchestrator.Setup.{
  vacuuming, analyzing, Migrator, counting, ensuring, syncing, preparing, init_resume, resumed,
  load_or_init_resume, mark_on_success, maybe_vacuum_source, maybe_analyze_target,
  run_source_vacuum_stage, run_target_analyze_stage, split_snapshot_id, split_context,
  prepare_split_above, prepare_split_for, prepare_split,
}
use pg_migrator.Orchestrator.Stages.{run_verify_stage, judge}
use pg_migrator.Orchestrator.Run.{
  answered, call, best_effort, force_clean_stage, note_created, publication_stage, slot_stage,
  prepare_stage, release_subscription, finish_apply, apply_phase, run_native_engine,
  sequences_stage, drop_created_publication, drop_slot_after_cutover, cleanup_source_after_cutover,
  cleanup_stage, run_verify,
}
use pg_migrator.Orchestrator.Calm.{
  is_other, Keeps, Closed, Keeps-pure, Keeps-fail, Keeps-lift, Keeps-if, Keeps-ask, Keeps-attempt,
  Keeps-bind, Keeps-report, Keeps-save,
}

module _ {K : Trace → Type 0} (closed : Closed K) (w : World) (m : Migrator) where
  pub Keeps-call : (c : Call) → is_other c ≡ true → Keeps K (call w m c)
  unfolding call
  Keeps-call c h = Keeps-ask closed c (answered w m c) h

  Keeps-best_effort : (c : Call) → is_other c ≡ true → Keeps K (best_effort w m c)
  unfolding best_effort
  Keeps-best_effort c h = Keeps-bind (Keeps-attempt (Keeps-call c h)) (λ r. Keeps-pure tt)

  pub Keeps-force_clean_stage : Keeps K (force_clean_stage w m)
  unfolding force_clean_stage
  Keeps-force_clean_stage =
      Keeps-if m.config.online.force_clean
        (Keeps-bind (Keeps-report closed _ _) (λ _. Keeps-call force_clean refl)) (Keeps-pure tt)

  Keeps-init_resume :
      (path : Text) (r : Result (Option ResumeToken)) → Keeps K (init_resume w m path r)
  unfolding init_resume resumed
  Keeps-init_resume path (err e) = Keeps-fail e
  Keeps-init_resume path (ok none) = Keeps-pure _
  Keeps-init_resume path (ok (some token)) = Keeps-bind (Keeps-lift _) (λ _. Keeps-pure token)

  pub Keeps-load_or_init_resume : (path : Text) → Keeps K (load_or_init_resume w m path)
  unfolding load_or_init_resume
  Keeps-load_or_init_resume path =
      Keeps-if m.config.resume (Keeps-init_resume path _) (Keeps-pure _)

  Keeps-mark_on_success :
      (stage : CompletedStage) (token : ResumeToken) (path : Text) (r : Result (Unit {0}))
      → Keeps K (mark_on_success w m stage token path r)
  unfolding mark_on_success
  Keeps-mark_on_success stage token path (err e) = Keeps-pure token
  Keeps-mark_on_success stage token path (ok _) =
      Keeps-bind (Keeps-save closed w m _ path) (λ _. Keeps-pure _)

  pub Keeps-run_source_vacuum_stage :
      (token : ResumeToken) (path : Text) → Keeps K (run_source_vacuum_stage w m token path)
  unfolding run_source_vacuum_stage maybe_vacuum_source
  Keeps-run_source_vacuum_stage token path =
      Keeps-if (m.config.skip_source_vacuum || has token Token.source_vacuum) (Keeps-pure token) (
        Keeps-bind (Keeps-report closed _ _) (λ _.
          Keeps-bind
            (Keeps-attempt (
              Keeps-if m.config.skip_source_vacuum (Keeps-pure tt)
                (Keeps-ask closed vacuum_source (vacuuming w m) refl)))
            (λ r. Keeps-mark_on_success Token.source_vacuum token path r)))

  pub Keeps-run_target_analyze_stage :
      (token : ResumeToken) (path : Text) → Keeps K (run_target_analyze_stage w m token path)
  unfolding run_target_analyze_stage maybe_analyze_target
  Keeps-run_target_analyze_stage token path =
      Keeps-if (m.config.skip_analyze || has token Token.analyze) (Keeps-pure token) (
        Keeps-bind (Keeps-report closed _ _) (λ _.
          Keeps-bind
            (Keeps-attempt (
              Keeps-if m.config.skip_analyze (Keeps-pure tt)
                (Keeps-ask closed analyze_target (analyzing w m) refl)))
            (λ r. Keeps-mark_on_success Token.analyze token path r)))

  Keeps-split_snapshot_id : (existing : Option Text) → Keeps K (split_snapshot_id w m existing)
  unfolding split_snapshot_id
  Keeps-split_snapshot_id (some id) = Keeps-pure id
  Keeps-split_snapshot_id none =
      Keeps-if (is_online m.config.mode) (Keeps-fail _)
        (Keeps-ask closed export_snapshot w.exported refl)

  Keeps-split_context :
      (existing : Option Text) (plan : List SplitTable) → Keeps K (split_context w m existing plan)
  unfolding split_context
  Keeps-split_context existing plan =
      Keeps-bind (Keeps-split_snapshot_id existing)
        (λ id. Keeps-bind (Keeps-report closed _ _) (λ _. Keeps-pure _))

  Keeps-prepare_split_for :
      (existing : Option Text) (threshold : Option ℕ)
      → Keeps K (prepare_split_for w m existing threshold)
  unfolding prepare_split_for prepare_split_above
  Keeps-prepare_split_for existing none = Keeps-pure none
  Keeps-prepare_split_for existing (some threshold) =
      Keeps-bind (Keeps-ask closed _ w.planned refl) (λ plan.
        Keeps-if (is_empty plan) (Keeps-bind (Keeps-report closed _ _) (λ _. Keeps-pure none))
          (Keeps-split_context existing plan))

  pub Keeps-prepare_split : (existing : Option Text) → Keeps K (prepare_split w m existing)
  unfolding prepare_split
  Keeps-prepare_split existing = Keeps-prepare_split_for existing m.config.split_tables_larger_than

  Keeps-note_created :
      (token : ResumeToken) (path : Text) (b : Bool) → Keeps K (note_created w m token path b)
  unfolding note_created
  Keeps-note_created token path false = Keeps-pure token
  Keeps-note_created token path true = Keeps-bind (Keeps-save closed w m _ path) (λ _. Keeps-pure _)

  Keeps-publication_stage :
      (token : ResumeToken) (path : Text) → Keeps K (publication_stage w m token path)
  unfolding publication_stage
  Keeps-publication_stage token path =
      Keeps-if (not m.config.online.auto_create_publication)
        (Keeps-bind
          (Keeps-bind (Keeps-report closed _ _) (λ _. Keeps-call (verify_publication _) refl))
          (λ _. Keeps-pure token))
        (Keeps-bind (Keeps-report closed _ _) (λ _.
          Keeps-bind (Keeps-ask closed (ensure_publication _) (ensuring w m) refl)
            (λ created. Keeps-note_created token path created)))

  Keeps-slot_stage : (token : ResumeToken) (path : Text) → Keeps K (slot_stage w m token path)
  unfolding slot_stage
  Keeps-slot_stage token path = Keeps-bind (Keeps-report closed _ _) (λ _.
      Keeps-bind (Keeps-ask closed prepare_slot (preparing w m) refl)
        (λ snapshot. Keeps-bind (Keeps-save closed w m _ path) (λ _. Keeps-pure _)))

  pub Keeps-prepare_stage :
      (token : ResumeToken) (path : Text) → Keeps K (prepare_stage w m token path)
  unfolding prepare_stage
  Keeps-prepare_stage token path =
      Keeps-if (has token Token.dump) (Keeps-bind (Keeps-report closed _ _) (λ _. Keeps-pure token))
        (Keeps-bind (Keeps-publication_stage token path)
          (λ published. Keeps-slot_stage published path))

  pub Keeps-release_subscription : Keeps K (release_subscription w m)
  unfolding release_subscription
  Keeps-release_subscription =
      Keeps-if m.config.resume (Keeps-best_effort disable_subscription refl) (Keeps-pure tt)

  applied_keeps : (o : Option Finished) (tr : Trace) → K tr → K (finish_apply w m o tr).1
  applied_keeps none tr k = k
  applied_keeps (some f) tr k = closed _ tr refl k

  pub Keeps-run_native_engine : Keeps K (run_native_engine w m)
  unfolding run_native_engine apply_phase
  Keeps-run_native_engine = Keeps-bind (Keeps-call connect_target refl) (λ _.
      Keeps-bind (Keeps-report closed _ _) (λ _.
        Keeps-bind (Keeps-call connect_lag refl)
          (λ _. record { at = λ tr k. applied_keeps _ tr k })))

  pub Keeps-sequences_stage : (stats : ApplyStats) → Keeps K (sequences_stage w m stats)
  unfolding sequences_stage
  Keeps-sequences_stage stats =
      Keeps-if (not (stats.cutover_triggered && m.config.online.sync_sequences_on_cutover))
        (Keeps-pure tt)
        (Keeps-bind (Keeps-report closed _ _) (λ _.
          Keeps-bind (Keeps-attempt (Keeps-ask closed sync_sequences (syncing w m) refl))
            (λ r. Keeps-report closed _ _)))

  Keeps-drop_created_publication : (b : Bool) → Keeps K (drop_created_publication w m b)
  unfolding drop_created_publication
  Keeps-drop_created_publication false = Keeps-pure tt
  Keeps-drop_created_publication true =
      Keeps-bind (Keeps-report closed _ _) (λ _. Keeps-best_effort (drop_publication _) refl)

  Keeps-drop_slot_after_cutover : Keeps K (drop_slot_after_cutover w m)
  unfolding drop_slot_after_cutover
  Keeps-drop_slot_after_cutover =
      Keeps-if (not m.config.online.drop_slot_on_cutover) (Keeps-pure tt) (
        Keeps-bind (Keeps-report closed _ _) (λ _.
          Keeps-bind (Keeps-best_effort wait_slot_inactive refl)
            (λ _. Keeps-best_effort drop_slot refl)))

  pub Keeps-cleanup_stage :
      (stats : ApplyStats) (token : ResumeToken) → Keeps K (cleanup_stage w m stats token)
  unfolding cleanup_stage cleanup_source_after_cutover
  Keeps-cleanup_stage stats token =
      Keeps-if stats.cutover_triggered
        (Keeps-bind (Keeps-drop_created_publication token.pub_auto_created)
          (λ _. Keeps-drop_slot_after_cutover))
        (Keeps-pure tt)

  pub Keeps-run_verify_stage : Keeps K (run_verify_stage w m)
  unfolding run_verify_stage judge
  Keeps-run_verify_stage = Keeps-if (Config.is_off m.config.verify) (Keeps-report closed _ _) (
      Keeps-bind (Keeps-ask closed verify_counts (counting w m) refl) (λ r.
        Keeps-bind (Keeps-report closed _ _) (λ _. Keeps-if _ (Keeps-fail _) (Keeps-pure tt))))

  pub Keeps-run_verify : Keeps K (run_verify w m)
  unfolding run_verify
  Keeps-run_verify = Keeps-bind (Keeps-ask closed verify_counts (counting w m) refl) (λ r.
      Keeps-bind (Keeps-report closed _ _)
        (λ _. Keeps-if (not (all_match r)) (Keeps-fail _) (Keeps-pure _)))
