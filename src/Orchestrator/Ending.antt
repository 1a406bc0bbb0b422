-- ===== src/Orchestrator/Ending.antt =====
-- The end of a run of each mode of `Migrator::run` (pg_dbmigrator/src/orchestrator.rs).
use pg_migrator.Preflight.Decisions.{PreflightReport}
use pg_migrator.Preflight.Probes.{Probe}
use mathlib.Core.Path.{subst}
use pg_migrator.Base.{
  not, ap, sym, ◌≡◌, refl, Bool, true, false, [], ◌∷◌, Option, none, some, lit, arith,
}
use pg_migrator.Error.{config, verification_failed, Result, ok, err, is_ok}
use pg_migrator.Config.{MigrationMode, offline, online, verify, validate}
use pg_migrator.Verify.Report.{VerifyReport, all_match, summary_line}
use pg_migrator.Progress
use pg_migrator.Progress.{ProgressEvent, MigrationStage, Message}
use pg_migrator.Resume.Token.{StageSet, no_stages}
use pg_migrator.Orchestrator.Trace.{
  Call, offline_preflight, online_preflight, verify_counts, called, reported, Trace, World, Act,
  from_result, fail, lift, ask, report,
}
use pg_migrator.Orchestrator.Setup.{counting, Migrator, dump_path_or_default}
use pg_migrator.Orchestrator.Run.{
  MigrationOutcome, run_offline, run_online, run_verify, preflight, raced, after_preflight,
  dispatch, run,
}
use pg_migrator.Orchestrator.Legal.{
  call_rank, last_rank, superseded, needs_cutover, in_place, legal,
}
use pg_migrator.Orchestrator.Rules.{Post, Triple, Triple-pure, Triple-fail, Triple-if, Triple-bind}
use pg_migrator.Orchestrator.Moves.{Legal}
use pg_migrator.Orchestrator.Legality.{
  stages_on_disk, Entered, Migrated, entered-report, offline-Migrated, online-Migrated,
}

-- The stages that a run finds complete: those of the token that it resumes from.
abbrev pub found : World → Migrator → MigrationMode → StageSet
found w m offline = stages_on_disk w m (dump_path_or_default w m (lit "dump_offline"))
found w m online = stages_on_disk w m (dump_path_or_default w m (lit "dump_online"))
found w m verify = no_stages

-- the end of a run of each mode
abbrev pub Ending : World → Migrator → MigrationMode → Trace → Type 0
Ending w m offline tr = Migrated (found w m offline) tr
Ending w m online tr = Migrated (found w m online) tr
Ending w m verify tr = Legal no_stages tr

module _ (w : World) (m : Migrator) where
  first :
      (before : StageSet) (c : Call) (r : Result PreflightReport) (tr : Trace)
      → tr ≡ []
      → call_rank c ≡ 1
      → superseded before c ≡ false
      → needs_cutover c ≡ false
      → Post (Legal before) (λ _. Entered before) (from_result r, called c (is_ok r) ∷ tr)
  unfolding legal last_rank in_place
  first before c (ok items) tr h rank1 fresh free =
      rw (h) (record { is_legal = ground (arith); reached = ground (arith) })
  first before c (err e) tr h rank1 fresh free = rw (h) (ground (arith))

  raced-Entered :
      (before : StageSet) (c : Call) (bundle : Probe → Result PreflightReport) (o : Option Probe)
      (tr : Trace)
      → tr ≡ []
      → call_rank c ≡ 1
      → superseded before c ≡ false
      → needs_cutover c ≡ false
      → Post (Legal before) (λ _. Entered before) (raced w m c bundle o tr)
  unfolding fail legal ask
  raced-Entered before c bundle none tr h rank1 fresh free = rw (h) refl
  raced-Entered before c bundle (some p) tr h rank1 fresh free =
      first before c (bundle p) tr h rank1 fresh free

  after_preflight-Ending :
      {before : StageSet} {Q : MigrationOutcome → Trace → Type 0} (c : Call)
      (bundle : Probe → Result PreflightReport) (rest : Act MigrationOutcome)
      → call_rank c ≡ 1
      → superseded before c ≡ false
      → needs_cutover c ≡ false
      → Triple (Legal before) (Entered before) rest Q
      → Triple (Legal before) (λ tr. tr ≡ []) (after_preflight w m c bundle rest) Q
  unfolding after_preflight preflight
  after_preflight-Ending {before = before} c bundle rest rank1 fresh free t =
      Triple-bind {Q = λ _ tr. Entered before tr}
        (record { at = λ tr h. raced-Entered before c bundle (w.probe tr) tr h rank1 fresh free })
        (λ items. Triple-bind (entered-report w m _ _) (λ _. t))

  -- the traces of a standalone verification
  counted :
      (P : Trace → Type 0) (r : Result VerifyReport) (tr : Trace)
      → tr ≡ []
      → ((b : Bool) → P (called verify_counts b ∷ []))
      → Post P
          (λ _ tr. tr ≡ called verify_counts true ∷ [])
          (from_result r, called verify_counts (is_ok r) ∷ tr)
  counted P (ok r) tr h k = ap (λ past. called verify_counts true ∷ past) h
  counted P (err e) tr h k = subst (λ past. P (called verify_counts false ∷ past)) (sym h) (k false)

  report-after :
      {E : Trace → Type 0} (stage : MigrationStage) (message : Message) (past : Trace)
      → Triple E
          (λ tr. tr ≡ past)
          (report stage message)
          (λ _ tr. tr ≡ reported (record { stage = stage; message = message }) ∷ past)
  unfolding report
  report-after stage message past = record {
    at = λ tr h. ap (λ past. reported (record { stage = stage; message = message }) ∷ past) h;
  }

  pub verify-trace :
      {P : Trace → Type 0}
      → ((b : Bool) → P (called verify_counts b ∷ []))
      → ((e : ProgressEvent) → P (reported e ∷ called verify_counts true ∷ []))
      → Triple P (λ tr. tr ≡ []) (run_verify w m) (λ _ tr. P tr)
  unfolding run_verify ask
  verify-trace {P = P} early late =
      Triple-bind {Q = λ _ tr. tr ≡ called verify_counts true ∷ []}
        (record { at = λ tr h. counted P (counting w m tr) tr h early })
        (λ r. Triple-bind (report-after Progress.verify (summary_line r) _) (λ _.
          Triple-if (not (all_match r))
            (λ _. Triple-fail (config verification_failed) (λ tr h. subst P (sym h) (late _)))
            (λ _. Triple-pure _ (λ tr h. subst P (sym h) (late _)))))

  verify-Ending :
      Triple (Legal no_stages) (λ tr. tr ≡ []) (run_verify w m) (λ _ tr. Legal no_stages tr)
  unfolding legal in_place last_rank
  verify-Ending = verify-trace (λ b. refl) (λ e. refl)

  dispatch-Ending :
      (mode : MigrationMode)
      → Triple
          (Legal (found w m mode))
          (λ tr. tr ≡ [])
          (dispatch w m mode)
          (λ _ tr. Ending w m mode tr)
  unfolding dispatch
  dispatch-Ending offline =
      after_preflight-Ending offline_preflight _ (run_offline w m) refl refl refl
        (offline-Migrated w m)
  dispatch-Ending online =
      after_preflight-Ending online_preflight _ (run_online w m) refl refl refl
        (online-Migrated w m)
  dispatch-Ending verify = verify-Ending

  pub validated :
      (r : Result (Unit {0})) (before : StageSet)
      → Triple (Legal before) (λ tr. tr ≡ []) (lift r) (λ _ tr. tr ≡ [])
  unfolding lift legal
  validated (ok _) before = record { at = λ tr h. h }
  validated (err e) before = record { at = λ tr h. rw (h) refl }

  pub run-Ending :
      Triple
        (Legal (found w m m.config.mode))
        (λ tr. tr ≡ [])
        (run w m)
        (λ _ tr. Ending w m m.config.mode tr)
  unfolding run
  run-Ending =
      Triple-bind (validated (validate m.config) (found w m m.config.mode))
        (λ _. dispatch-Ending m.config.mode)
