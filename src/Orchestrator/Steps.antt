-- ===== src/Orchestrator/Steps.antt =====
-- Each step of `Migrator` keeps the run legal.
use pg_migrator.Base.{
  is_empty, ◌≡◌, refl, ℕ, ◌≤◌, Bool, true, false, ◌||◌, List, ◌∷◌, Option, none, some, Text, arith,
}
use pg_migrator.Error.{Result, ok, err}
use pg_migrator.Resume.Token.{
  CompletedStage, StageSet, has_stage, add_stage, ResumeToken, mark, has,
}
use pg_migrator.Resume.Token
use pg_migrator.Progress.{MigrationStage, Message, starting, skipped_resume, complete_with_timing}
use pg_migrator.Progress
use pg_migrator.CopySplit.Pages.{SplitTable}
use pg_migrator.Config.{is_online}
use pg_migrator.Orchestrator.Trace.{
  vacuum_source, analyze_target, pg_dump, export_snapshot, Entry, Trace, World, attempt,
}
use pg_migrator.Orchestrator.Setup.{
  vacuuming, analyzing, prepare_split_for, Migrator, SplitContext, mark_on_success,
  maybe_vacuum_source, maybe_analyze_target, run_source_vacuum_stage, run_target_analyze_stage,
  prepare_split, prepare_split_above, split_context, split_snapshot_id,
}
use pg_migrator.Orchestrator.Stages.{run_dump, dump_stage}
use pg_migrator.Orchestrator.Legal.{is_vacuum, is_dump, is_analyze, did, done}
use pg_migrator.Orchestrator.Rules.{
  Triple, Triple-pure, Triple-fail, Triple-if, Triple-from, Triple-given, Triple-bind,
}
use pg_migrator.Orchestrator.State.{At, At-later, At-mark, At-forget, At-hold}
use pg_migrator.Orchestrator.Moves.{
  ask_only-At, Legal, Tried, report-At, save-At, check_cancel-At, ask-At, attempt-At,
}

module _ (w : World) (m : Migrator) {before base : StageSet} {seen : List (Entry → Bool)} where
  -- a stage that is not marked was not complete before the run
  pub not_before :
      {r : ℕ} (t : ResumeToken) (stage : CompletedStage)
      → has t stage ≡ false
      → (tr : Trace) → At before base r seen t tr
      → has_stage stage before ≡ false
  unfolding has
  not_before t stage h tr a = ground (arith, a.keeps stage)

  -- marking a stage whose work `p` finds
  marked-At :
      {r : ℕ} (t : ResumeToken) (stage : CompletedStage) (p : Entry → Bool) (path : Text)
      → ((tr : Trace) → At before base r (p ∷ seen) t tr → done tr stage ≡ true)
      → (res : Result (Unit {0}))
      → Triple
          (Legal before)
          (Tried (At before base r (p ∷ seen) t) (At before base r seen t) res)
          (mark_on_success w m stage t path res)
          (λ t' tr. At before base r seen t' tr)
  unfolding mark_on_success
  marked-At t stage p path work (err e) = Triple-pure t (λ tr a. a)
  marked-At t stage p path work (ok _) =
      Triple-bind (Triple-from (λ tr a. At-mark stage (At-forget a) (work tr a)) (save-At w m path))
        (λ _. Triple-pure (mark stage t) (λ tr a. a))

  vacuum_call-At :
      {r : ℕ} (t : ResumeToken)
      → r ≤ 3
      → m.config.skip_source_vacuum ≡ false
      → before.has_source_vacuum ≡ false
      → Triple
          (Legal before)
          (At before base r seen t)
          (attempt (maybe_vacuum_source w m))
          (Tried (At before base 3 (did is_vacuum ∷ seen) t) (At before base 3 seen t))
  unfolding maybe_vacuum_source
  vacuum_call-At t le on fresh =
      rw (on) (attempt-At (did is_vacuum) vacuum_source (vacuuming w m) refl le fresh refl)

  pub vacuum-At :
      {r : ℕ} (t : ResumeToken) (path : Text)
      → r ≤ 3
      → Triple
          (Legal before)
          (At before base r seen t)
          (run_source_vacuum_stage w m t path)
          (λ t' tr. At before base 3 seen t' tr)
  unfolding run_source_vacuum_stage done
  vacuum-At t path le =
      Triple-if (m.config.skip_source_vacuum || has t Token.source_vacuum)
        (λ _. Triple-pure t (λ tr a. At-later 3 a le))
        (λ h. Triple-given (not_before t Token.source_vacuum (ground (arith, h))) (λ fresh.
          Triple-bind (report-At Progress.source_vacuum starting) (λ _.
            Triple-bind (vacuum_call-At t le (ground (arith, h)) fresh) (λ res.
              marked-At t Token.source_vacuum (did is_vacuum) path (λ tr a. a.sees.0) res))))

  analyze_call-At :
      {r : ℕ} (t : ResumeToken)
      → r ≤ 13
      → m.config.skip_analyze ≡ false
      → before.has_analyze ≡ false
      → Triple
          (Legal before)
          (At before base r seen t)
          (attempt (maybe_analyze_target w m))
          (Tried (At before base 13 (did is_analyze ∷ seen) t) (At before base 13 seen t))
  unfolding maybe_analyze_target
  analyze_call-At t le on fresh =
      rw (on) (attempt-At (did is_analyze) analyze_target (analyzing w m) refl le fresh refl)

  pub analyze-At :
      {r : ℕ} (t : ResumeToken) (path : Text)
      → r ≤ 13
      → Triple
          (Legal before)
          (At before base r seen t)
          (run_target_analyze_stage w m t path)
          (λ t' tr. At before base 13 seen t' tr)
  unfolding run_target_analyze_stage done
  analyze-At t path le =
      Triple-if (m.config.skip_analyze || has t Token.analyze)
        (λ _. Triple-pure t (λ tr a. At-later 13 a le))
        (λ h. Triple-given (not_before t Token.analyze (ground (arith, h))) (λ fresh.
          Triple-bind (report-At Progress.analyze starting) (λ _.
            Triple-bind (analyze_call-At t le (ground (arith, h)) fresh)
              (λ res. marked-At t Token.analyze (did is_analyze) path (λ tr a. a.sees.0) res))))

  snapshot-At :
      {r : ℕ} {t : ResumeToken} (existing : Option Text)
      → r ≤ 7
      → Triple
          (Legal before)
          (At before base r seen t)
          (split_snapshot_id w m existing)
          (λ _ tr. At before base 7 seen t tr)
  unfolding split_snapshot_id
  snapshot-At (some id) le = Triple-pure id (λ tr a. At-later 7 a le)
  snapshot-At none le =
      Triple-if (is_online m.config.mode) (λ _. Triple-fail _ (λ tr a. a.is_legal))
        (λ _. ask_only-At export_snapshot w.exported 7 le (ground (arith)) refl refl)

  context-At :
      {t : ResumeToken} (existing : Option Text) (plan : List SplitTable)
      → Triple
          (Legal before)
          (At before base 6 seen t)
          (split_context w m existing plan)
          (λ _ tr. At before base 7 seen t tr)
  unfolding split_context
  context-At existing plan =
      Triple-bind (snapshot-At existing (ground (arith)))
        (λ id. Triple-bind (report-At _ _) (λ _. Triple-pure _ (λ tr a. a)))

  split_above-At :
      {r : ℕ} {t : ResumeToken} (existing : Option Text) (threshold : ℕ)
      → r ≤ 6
      → Triple
          (Legal before)
          (At before base r seen t)
          (prepare_split_above w m existing threshold)
          (λ _ tr. At before base 7 seen t tr)
  unfolding prepare_split_above
  split_above-At existing threshold le =
      Triple-bind (ask_only-At _ w.planned 6 le (ground (arith)) refl refl) (λ plan.
        Triple-if (is_empty plan)
          (λ _.
            Triple-bind (report-At _ _)
              (λ _. Triple-pure none (λ tr a. At-later 7 a (ground (arith)))))
          (λ _. context-At existing plan))

  split_for-At :
      {r : ℕ} {t : ResumeToken} (existing : Option Text) (threshold : Option ℕ)
      → r ≤ 6
      → Triple
          (Legal before)
          (At before base r seen t)
          (prepare_split_for w m existing threshold)
          (λ _ tr. At before base 7 seen t tr)
  unfolding prepare_split_for
  split_for-At existing none le = Triple-pure none (λ tr a. At-later 7 a (ground (arith, le)))
  split_for-At existing (some threshold) le = split_above-At existing threshold le

  pub split-At :
      {r : ℕ} {t : ResumeToken} (existing : Option Text)
      → r ≤ 6
      → Triple
          (Legal before)
          (At before base r seen t)
          (prepare_split w m existing)
          (λ _ tr. At before base 7 seen t tr)
  unfolding prepare_split
  split-At existing le = split_for-At existing m.config.split_tables_larger_than le

  pub dump-At :
      {r : ℕ} (t : ResumeToken) (path : Text) (snapshot : Option Text) (split : Option SplitContext)
      (message : Message)
      → r ≤ 8
      → Triple
          (Legal before)
          (At before base r seen t)
          (dump_stage w m t path snapshot split message)
          (λ t' tr. At before (add_stage Token.dump base) 8 seen t' tr)
  unfolding dump_stage run_dump done mark has
  dump-At t path snapshot split message le =
      Triple-if (has t Token.dump)
        (λ h.
          Triple-bind (report-At Progress.dump skipped_resume)
            (λ _. Triple-pure t (λ tr a. At-hold Token.dump h (At-later 8 a le))))
        (λ h. Triple-given (not_before t Token.dump h) (λ fresh.
          Triple-bind (report-At Progress.dump message) (λ _.
            Triple-bind (ask-At (did is_dump) (pg_dump _) _ refl le fresh refl) (λ _.
              Triple-bind (check_cancel-At w m) (λ _.
                Triple-bind (report-At Progress.dump complete_with_timing) (λ _.
                  Triple-bind
                    (Triple-from (λ tr a. At-forget (At-mark Token.dump a a.sees.0))
                      (save-At w m path))
                    (λ _. Triple-pure (mark Token.dump t) (λ tr a. At-hold Token.dump refl a))))))))
