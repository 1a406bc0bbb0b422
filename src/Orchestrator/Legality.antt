-- ===== src/Orchestrator/Legality.antt =====
-- Every run of `Migrator` is legal (pg_dbmigrator/src/orchestrator.rs).
use pg_migrator.Base.{
  ◌≡◌, refl, sym, ℕ, ◌≤◌, Bool, true, false, ◌||◌, List, [], ◌∷◌, Option, none, some, Text, lit,
  arith, if◌then◌else◌,
}
use pg_migrator.Error.{is_ok, Result, ok, err}
use pg_migrator.Resume.Token.{
  CompletedStage, StageSet, no_stages, has_stage, add_stage, ResumeToken, new_token,
  check_compatible,
}
use pg_migrator.Resume.Token
use pg_migrator.Resume.File.{load}
use pg_migrator.Orchestrator.Trace.{
  Entry, Trace, World, called, force_clean, from_result, pure, lift, ask, report,
}
use pg_migrator.Orchestrator.Setup.{
  Migrator, dump_path_or_default, resume_path, resumed, init_resume, load_or_init_resume,
  check_cancel,
}
use pg_migrator.Orchestrator.Run.{answered, run_offline, run_online, call, force_clean_stage}
use pg_migrator.Orchestrator.Legal.{in_place, last_rank, done, covers, legal}
use pg_migrator.Orchestrator.Rules.{
  Post, Triple, Triple-pure, Triple-fail, Triple-if, Triple-from, Triple-bind,
}
use pg_migrator.Orchestrator.State.{At-same, At}
use pg_migrator.Orchestrator.Moves.{Legal, report-At, save-At, check_cancel-At}
use pg_migrator.Orchestrator.Steps.{vacuum-At, analyze-At, split-At, dump-At}
use pg_migrator.Orchestrator.Preparing.{prepare-At}
use pg_migrator.Orchestrator.Applying.{release-At, wait-At, apply-At}
use pg_migrator.Orchestrator.Cutting.{sequences-At, cleanup_stage-At}
use pg_migrator.Progress.{MigrationStage, Message}
use pg_migrator.Orchestrator.Restoring.{restore_stage-At, verify-At}

-- the stages of the token that was read
abbrev stages_in : Result (Option ResumeToken) → StageSet
stages_in (ok (some token)) = token.completed
stages_in (ok none) = no_stages
stages_in (err e) = no_stages

-- The stages that the token on disk has, for a run that is told to resume.
unfoldable pub stages_on_disk : World → Migrator → Text → StageSet
stages_on_disk w m path =
    if m.config.resume
    then stages_in (load w.from_slice (w.read_token (resume_path w m path)))
    else no_stages

-- a legal trace before the token is loaded
pub record Entered (before : StageSet) (tr : Trace) : Type 0 where
  pub is_legal : legal before tr ≡ true
  pub reached : last_rank tr ≤ 2

covers_self : (s : StageSet) (tr : Trace) → covers s tr s ≡ true
unfolding covers
covers_self s tr = ground (arith)

-- a token that has the stages of `before`
At-start :
    (before : StageSet) (t : ResumeToken) (tr : Trace)
    → t.completed ≡ before
    → Entered before tr
    → At before before 2 [] t tr
At-start before t tr h e = record {
  is_legal = e.is_legal;
  reached = e.reached;
  is_covered = rw (h) (covers_self before tr);
  sees = tt;
  keeps = λ stage k. rw (h) k;
  holds = λ stage k. rw (h) k;
}

module _ (w : World) (m : Migrator) (path : Text) where
  new-At :
      (before : StageSet)
      → before ≡ no_stages
      → Triple
          (Legal before)
          (Entered before)
          (pure (new_token w.hasher m.config path))
          (λ t tr. At before before 2 [] t tr)
  unfolding new_token
  new-At before h = Triple-pure _ (λ tr e. At-start before _ tr (sym h) e)

  checked :
      (before : StageSet) (r : Result (Unit {0}))
      → Triple (Legal before) (Entered before) (lift r) (λ _ tr. Entered before tr)
  unfolding lift
  checked before (ok u) = record { at = λ tr e. e }
  checked before (err x) = record { at = λ tr e. e.is_legal }

  init-At :
      (r : Result (Option ResumeToken))
      → Triple
          (Legal (stages_in r))
          (Entered (stages_in r))
          (init_resume w m path r)
          (λ t tr. At (stages_in r) (stages_in r) 2 [] t tr)
  unfolding init_resume resumed
  init-At (err e) = Triple-fail e (λ tr a. a.is_legal)
  init-At (ok none) = new-At no_stages refl
  init-At (ok (some token)) =
      Triple-bind (checked token.completed (check_compatible w.hasher token m.config))
        (λ _. Triple-pure token (λ tr a. At-start token.completed token tr refl a))

  loading :
      (resume : Bool) (r : Result (Option ResumeToken))
      → let before = if resume then stages_in r else no_stages in
        Triple
          (Legal before)
          (Entered before)
          (if resume then init_resume w m path r else pure (new_token w.hasher m.config path))
          (λ t tr. At before before 2 [] t tr)
  loading true r = init-At r
  loading false r = new-At no_stages refl

  load-At :
      let before = stages_on_disk w m path in
      Triple
        (Legal before)
        (Entered before)
        (load_or_init_resume w m path)
        (λ t tr. At before before 2 [] t tr)
  unfolding stages_on_disk load_or_init_resume
  load-At = loading m.config.resume (load w.from_slice (w.read_token (resume_path w m path)))

-- what a migration that ends well has done
pub record Migrated (before : StageSet) (tr : Trace) : Type 0 where
  pub is_legal : legal before tr ≡ true
  pub dumped : (before.has_dump || done tr Token.dump) ≡ true
  pub restored : (before.has_restore || done tr Token.restore) ≡ true

At-Migrated :
    {before : StageSet} {r : ℕ} {seen : List (Entry → Bool)} {t : ResumeToken} (tr : Trace)
    → At before (add_stage Token.restore (add_stage Token.dump before)) r seen t tr
    → Migrated before tr
unfolding covers
At-Migrated tr a = record {
  is_legal = a.is_legal;
  dumped = ground (arith, a.is_covered, a.holds Token.dump refl);
  restored = ground (arith, a.is_covered, a.holds Token.restore refl);
}

module _ (w : World) (m : Migrator) where
  pub offline-Migrated :
      let before = stages_on_disk w m (dump_path_or_default w m (lit "dump_offline")) in
      Triple (Legal before) (Entered before) (run_offline w m) (λ _ tr. Migrated before tr)
  unfolding run_offline
  offline-Migrated =
      let path = dump_path_or_default w m (lit "dump_offline") in
      Triple-bind (load-At w m path) (λ loaded.
        Triple-bind (vacuum-At w m loaded path (ground (arith))) (λ vacuumed.
          Triple-bind (split-At w m none (ground (arith))) (λ split.
            Triple-bind (dump-At w m vacuumed path _ split _ (ground (arith))) (λ dumped.
              Triple-bind
                (restore_stage-At w m dumped path split (pure tt) (ground (arith))
                  (λ seen. Triple-pure tt (λ tr a. a)))
                (λ restored.
                  Triple-bind (analyze-At w m restored path (ground (arith))) (λ analyzed.
                    Triple-bind (verify-At w m (ground (arith))) (λ _.
                      Triple-bind (report-At _ _)
                        (λ _. Triple-pure _ (λ tr a. At-Migrated tr a)))))))))

module _ (w : World) (m : Migrator) {before : StageSet} where
  entered-step :
      (b : Bool) (tr : Trace) → Entered before tr → Entered before (called force_clean b ∷ tr)
  unfolding legal last_rank in_place
  entered-step b tr e = record {
    is_legal = ground (arith, e.is_legal, e.reached);
    reached = ground (arith);
  }

  pub entered-report :
      (stage : MigrationStage) (message : Message)
      → Triple (Legal before) (Entered before) (report stage message) (λ _ tr. Entered before tr)
  unfolding report legal last_rank in_place
  entered-report stage message = record {
    at = λ tr e. record {
      is_legal = ground (arith, e.is_legal);
      reached = ground (arith, e.reached);
    };
  }

  cleaned :
      (tr : Trace) (o : Result (Unit {0}))
      → Entered before tr
      → Post (Legal before) (λ _. Entered before) (from_result o, called force_clean (is_ok o) ∷ tr)
  cleaned tr (ok _) e = entered-step true tr e
  cleaned tr (err _) e = (entered-step false tr e).is_legal

  force_clean-Entered :
      Triple (Legal before) (Entered before) (force_clean_stage w m) (λ _ tr. Entered before tr)
  unfolding force_clean_stage call ask
  force_clean-Entered =
      Triple-if m.config.online.force_clean
        (λ _.
          Triple-bind (entered-report _ _)
            (λ _. record { at = λ tr e. cleaned tr (answered w m force_clean tr) e }))
        (λ _. Triple-pure tt (λ tr e. e))

module _ (w : World) (m : Migrator) where
  pub online-Migrated :
      let before = stages_on_disk w m (dump_path_or_default w m (lit "dump_online")) in
      Triple (Legal before) (Entered before) (run_online w m) (λ _ tr. Migrated before tr)
  unfolding run_online
  online-Migrated =
      let path = dump_path_or_default w m (lit "dump_online") in
      Triple-bind (force_clean-Entered w m) (λ _. Triple-bind (load-At w m path) (λ loaded.
        Triple-bind (vacuum-At w m loaded path (ground (arith))) (λ vacuumed.
          Triple-bind (prepare-At w m vacuumed path (ground (arith))) (λ prepared.
            Triple-bind (split-At w m prepared.snapshot_name (ground (arith))) (λ split.
              Triple-bind (dump-At w m prepared path _ split _ (ground (arith))) (λ dumped.
                Triple-bind
                  (restore_stage-At w m dumped path split (check_cancel w m) (ground (arith))
                    (λ seen. check_cancel-At w m))
                  (λ restored.
                    Triple-bind (analyze-At w m restored path (ground (arith))) (λ analyzed.
                      Triple-bind (release-At w m (ground (arith))) (λ _.
                        Triple-bind (wait-At w m) (λ _.
                          Triple-bind (apply-At w m (ground (arith))) (λ stats.
                            Triple-bind
                              (Triple-from
                                (λ tr a.
                                  At-same
                                    (record analyzed {
                                      last_applied_lsn = some stats.last_applied_lsn;
                                    })
                                    refl a)
                                (save-At w m path))
                              (λ _. Triple-bind (sequences-At w m [] stats) (λ _.
                                Triple-bind (cleanup_stage-At w m [] stats analyzed) (λ _.
                                  Triple-bind (report-At _ _)
                                    (λ _. Triple-pure _ (λ tr a. At-Migrated tr a))))))))))))))))
