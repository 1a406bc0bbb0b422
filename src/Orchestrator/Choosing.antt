-- ===== src/Orchestrator/Choosing.antt =====
-- A run of `Migrator::run` (pg_dbmigrator/src/orchestrator.rs) chooses the split tables once, for
-- the dump and for the direct copy.
use pg_migrator.Orchestrator.Rules.{
  Triple, Triple-bind, Triple-fail, Triple-from, Triple-given, Triple-if, Triple-pure, Triple-to,
}
use pg_migrator.Orchestrator.Fits.{Reads, Fits, Unsplit, Fits-Closed, Unsplit-Closed}
use pg_migrator.Orchestrator.Filled.{Fits-dump_stage, Fits-restore_stage}
use mathlib.Core.Path.{ap}
use pg_migrator.Base.{Text, Option, none, some, [], true, ◌≡◌, refl, arith, ℕ, is_empty, lit}
use pg_migrator.Error.{Result}
use pg_migrator.Config.{MigrationMode, offline, online, verify, validate, is_online}
use pg_migrator.Preflight.Probes.{Probe}
use pg_migrator.Preflight.Decisions.{PreflightReport}
use pg_migrator.Orchestrator.Trace.{
  wait_slot_inactive, pure, Call, offline_preflight, online_preflight, Trace, World, Act,
}
use pg_migrator.Orchestrator.Setup.{
  Migrator, SplitContext, split_snapshot, dump_path_or_default, prepare_split, prepare_split_for,
  prepare_split_above, split_context, split_snapshot_id,
}
use pg_migrator.Orchestrator.Run.{
  MigrationOutcome, run, dispatch, after_preflight, preflight, raced, run_offline, run_online,
}
use pg_migrator.Orchestrator.Calm.{
  kept_back, Keeps-Triple, is_other, Keeps, Keeps-pure, Keeps-fail, Keeps-lift, Keeps-ask,
  Keeps-bind, Keeps-report, Keeps-save, Keeps-check_cancel,
}
use pg_migrator.Orchestrator.Untouched.{
  Keeps-call, Keeps-force_clean_stage, Keeps-load_or_init_resume, Keeps-run_source_vacuum_stage,
  Keeps-run_target_analyze_stage, Keeps-prepare_split, Keeps-prepare_stage,
  Keeps-release_subscription, Keeps-run_native_engine, Keeps-sequences_stage, Keeps-cleanup_stage,
  Keeps-run_verify_stage, Keeps-run_verify,
}
use pg_migrator.Orchestrator.Filled.{Fits-dump_stage, Fits-restore_stage}
use pg_migrator.Orchestrator.Promises.{trace_of}

-- every dump and every direct copy of a trace are for one choice of split tables
unfoldable pub Joint : Migrator → Trace → Type 0
Joint m tr = (split : Option SplitContext) × Fits m split tr

Unsplit-Joint : (m : Migrator) (past : Trace) → Unsplit m past → Joint m past
unfolding Joint Unsplit
Unsplit-Joint m past k = (none, k none)

module _ {ℓ} {A : Type ℓ} (m : Migrator) where
  -- before the choice
  early : {act : Act A} → Keeps (Unsplit m) act → Triple (Joint m) (Unsplit m) act (λ _. Unsplit m)
  early k = Keeps-Triple (Unsplit-Joint m) k

  -- after it, when it has been made well
  late :
      {F : Type 0} {act : Act A} (split : Option SplitContext)
      → (F → Keeps (Fits m split) act)
      → Triple (Joint m) (λ tr. Unsplit m tr × F) act (λ _. Joint m)
  unfolding Joint Unsplit
  late split k =
      Triple-given (λ tr h. h.1)
        (λ known.
          Triple-from (λ tr h. h.0 split)
            (Triple-to (λ _ past fits. (split, fits))
              (Keeps-Triple (λ past fits. (split, fits)) (k known))))

module _ (w : World) (m : Migrator) where
  id_chosen :
      (existing : Option Text)
      → is_online m.config.mode ≡ true
      → Triple
          (Joint m)
          (Unsplit m)
          (split_snapshot_id w m existing)
          (λ id tr. Unsplit m tr × (existing ≡ some id))
  unfolding split_snapshot_id
  id_chosen (some id) on = Triple-pure id (λ past k. (k, refl))
  id_chosen none on =
      Triple-if (is_online m.config.mode) (λ _. Triple-fail _ (Unsplit-Joint m))
        (λ off. ground (arith, on, off))

  -- online, the direct copy reads the snapshot of the slot
  split_chosen :
      (existing : Option Text) (threshold : Option ℕ)
      → is_online m.config.mode ≡ true
      → Triple
          (Joint m)
          (Unsplit m)
          (prepare_split_for w m existing threshold)
          (λ split tr. Unsplit m tr × Reads split existing)
  unfolding prepare_split_for prepare_split_above split_context Reads
  split_chosen existing none on = Triple-pure none (λ past k. (k, tt))
  split_chosen existing (some threshold) on =
      Triple-bind (early m (Keeps-ask (Unsplit-Closed m) _ w.planned refl)) (λ plan.
        Triple-if (is_empty plan)
          (λ _.
            Triple-bind (early m (Keeps-report (Unsplit-Closed m) _ _))
              (λ _. Triple-pure none (λ past k. (k, tt))))
          (λ _. Triple-bind (id_chosen existing on) (λ id.
            Triple-given (λ past k. k.1)
              (λ same.
                Triple-from (λ past k. k.0)
                  (Triple-bind (early m (Keeps-report (Unsplit-Closed m) _ _))
                    (λ _. Triple-pure _ (λ past k. (k, same))))))))

  own_snapshot : (split : Option SplitContext) → Reads split (split_snapshot split)
  unfolding Reads
  own_snapshot none = tt
  own_snapshot (some s) = refl

  offline-Joint : Triple (Joint m) (Unsplit m) (run_offline w m) (λ _. Joint m)
  unfolding run_offline
  offline-Joint =
      let path = dump_path_or_default w m (lit "dump_offline") in
      Triple-bind (early m (Keeps-load_or_init_resume (Unsplit-Closed m) w m path)) (λ loaded.
        Triple-bind (early m (Keeps-run_source_vacuum_stage (Unsplit-Closed m) w m loaded path))
          (λ vacuumed.
            Triple-bind
              (Triple-to {R = λ split tr. Unsplit m tr × Unit {0}} (λ split past k. (k, tt))
                (early m (Keeps-prepare_split (Unsplit-Closed m) w m none)))
              (λ split. late m split (λ _.
                let closed = Fits-Closed m split in
                Keeps-bind (Fits-dump_stage w m split vacuumed path _ _ (own_snapshot split))
                  (λ dumped.
                    Keeps-bind (Fits-restore_stage w m split dumped path (pure tt) (Keeps-pure tt))
                      (λ restored.
                        Keeps-bind (Keeps-run_target_analyze_stage closed w m restored path)
                          (λ analyzed.
                            Keeps-bind (Keeps-run_verify_stage closed w m)
                              (λ _. Keeps-bind (Keeps-report closed _ _) (λ _. Keeps-pure _)))))))))

  online-Joint :
      is_online m.config.mode ≡ true → Triple (Joint m) (Unsplit m) (run_online w m) (λ _. Joint m)
  unfolding run_online prepare_split
  online-Joint on =
      let path = dump_path_or_default w m (lit "dump_online") in
      let unsplit = Unsplit-Closed m in
      Triple-bind (early m (Keeps-force_clean_stage unsplit w m)) (λ _.
        Triple-bind (early m (Keeps-load_or_init_resume unsplit w m path)) (λ loaded.
          Triple-bind (early m (Keeps-run_source_vacuum_stage unsplit w m loaded path)) (λ vacuumed.
            Triple-bind (early m (Keeps-prepare_stage unsplit w m vacuumed path)) (λ prepared.
              Triple-bind (split_chosen prepared.snapshot_name m.config.split_tables_larger_than on)
                (λ split. late m split (λ reads.
                  let closed = Fits-Closed m split in
                  Keeps-bind (Fits-dump_stage w m split prepared path _ _ reads) (λ dumped.
                    Keeps-bind (Fits-restore_stage w m split dumped path _ (Keeps-check_cancel w m))
                      (λ restored.
                        Keeps-bind (Keeps-run_target_analyze_stage closed w m restored path)
                          (λ analyzed. Keeps-bind (Keeps-release_subscription closed w m) (λ _.
                            Keeps-bind (Keeps-call closed w m wait_slot_inactive refl) (λ _.
                              Keeps-bind (Keeps-run_native_engine closed w m) (λ stats.
                                Keeps-bind (Keeps-save closed w m _ path) (λ _.
                                  Keeps-bind (Keeps-sequences_stage closed w m stats) (λ _.
                                    Keeps-bind (Keeps-cleanup_stage closed w m stats analyzed) (λ _.
                                      Keeps-bind (Keeps-report closed _ _)
                                        (λ _. Keeps-pure _))))))))))))))))

  raced-Keeps :
      (c : Call) (bundle : Probe → Result PreflightReport) (o : Option Probe)
      → is_other c ≡ true
      → Keeps (Unsplit m) (raced w m c bundle o)
  raced-Keeps c bundle none h = Keeps-fail _
  raced-Keeps c bundle (some p) h = Keeps-ask (Unsplit-Closed m) c (λ tr. bundle p) h

  after_preflight-Joint :
      (c : Call) (bundle : Probe → Result PreflightReport) {rest : Act MigrationOutcome}
      → is_other c ≡ true
      → Triple (Joint m) (Unsplit m) rest (λ _. Joint m)
      → Triple (Joint m) (Unsplit m) (after_preflight w m c bundle rest) (λ _. Joint m)
  unfolding after_preflight preflight
  after_preflight-Joint c bundle h t =
      Triple-bind (early m (record { at = λ tr k. (raced-Keeps c bundle (w.probe tr) h).at tr k }))
        (λ items. Triple-bind (early m (Keeps-report (Unsplit-Closed m) _ _)) (λ _. t))

  dispatch-Joint :
      (mode : MigrationMode)
      → m.config.mode ≡ mode
      → Triple (Joint m) (Unsplit m) (dispatch w m mode) (λ _. Joint m)
  unfolding dispatch
  dispatch-Joint verify h =
      Triple-to (λ _. Unsplit-Joint m) (early m (Keeps-run_verify (Unsplit-Closed m) w m))
  dispatch-Joint offline h = after_preflight-Joint offline_preflight _ refl offline-Joint
  dispatch-Joint online h =
      after_preflight-Joint online_preflight _ refl (online-Joint (ap is_online h))

  pub run-Joint : Joint m (trace_of w m)
  unfolding run Unsplit Fits
  run-Joint = kept_back (Joint m) (run w m []).0 (run w m []).1 (
      (Triple-bind (early m (Keeps-lift (validate m.config)))
          (λ _. dispatch-Joint m.config.mode refl)).at
        [] (λ split. tt))
