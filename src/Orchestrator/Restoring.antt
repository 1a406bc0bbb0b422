-- ===== src/Orchestrator/Restoring.antt =====
-- The restore and verify steps of `Migrator` keep the run legal.
use pg_migrator.Base.{
  ◌&&◌, ◌≡◌, refl, ℕ, ◌≤◌, Bool, true, false, not, ◌⊎◌, inl, inr, List, ◌∷◌, Option, none, some,
  Text, arith,
}
use pg_migrator.Restore.Command.{pre_data, only_data, post_data, restore_sections}
use pg_migrator.Resume.Token.{
  CompletedStage, StageSet, has_stage, add_stage, ResumeToken, mark, has,
}
use pg_migrator.Resume.Token
use pg_migrator.Config
use pg_migrator.Verify.Report.{all_match}
use pg_migrator.Error.{config, verification_failed}
use pg_migrator.Progress.{starting, skipped_resume}
use pg_migrator.Progress
use pg_migrator.Orchestrator.Trace.{
  split_copy, pg_restore, verify_counts, Entry, Trace, World, Act, pure, ◌>>◌,
}
use pg_migrator.Orchestrator.Setup.{counting, Migrator, SplitContext, restore_request, save_resume}
use pg_migrator.Orchestrator.Stages.{
  run_restore, run_split_copy_stage, after_section, restore_section, for_sections, restore,
  restore_stage, judge, run_verify_stage,
}
use pg_migrator.Orchestrator.Legal.{did, restores, done}
use pg_migrator.Orchestrator.Rules.{
  Triple, Triple-pure, Triple-fail, Triple-if, Triple-from, Triple-to, Triple-given, Triple-either,
  Triple-bind,
}
use pg_migrator.Orchestrator.State.{At, At-later, At-mark, At-forget, At-hold}
use pg_migrator.Orchestrator.Moves.{Legal, report-At, save-At, check_cancel-At, ask-At, ask_only-At}
use pg_migrator.Orchestrator.Steps.{not_before}

-- the tests for the calls of a restore in sections, newest first
abbrev in_sections : List (Entry → Bool) → List (Entry → Bool)
in_sections seen =
    did (restores (some post_data))
    ∷ did (restores (some only_data))
    ∷ did (restores (some pre_data))
    ∷ seen

abbrev in_one : List (Entry → Bool) → List (Entry → Bool)
in_one seen = did (restores none) ∷ seen

module _ (w : World) (m : Migrator) {before base : StageSet} {t : ResumeToken}
    (fresh : before.has_restore ≡ false) where
  copy-At :
      {r : ℕ} {seen : List (Entry → Bool)} (split : Option SplitContext)
      → r ≤ 11
      → Triple
          (Legal before)
          (At before base r seen t)
          (run_split_copy_stage w m split)
          (λ _ tr. At before base 11 seen t tr)
  unfolding run_split_copy_stage
  copy-At none le = Triple-pure tt (λ tr a. At-later 11 a le)
  copy-At (some split) le =
      Triple-bind
        (ask_only-At (split_copy split.snapshot_id split.plan m.config.drop_target_first) _ 11 le
          (ground (arith)) fresh refl)
        (λ rows. report-At _ _)

  pre_data-At :
      {r : ℕ} {seen : List (Entry → Bool)} (path : Text) (split : Option SplitContext)
      → r ≤ 9
      → Triple
          (Legal before)
          (At before base r seen t)
          (restore_section w m path split pre_data)
          (λ _ tr. At before base 9 (did (restores (some pre_data)) ∷ seen) t tr)
  unfolding restore_section run_restore after_section restore_request
  pre_data-At path split le = Triple-bind (check_cancel-At w m) (λ _.
      Triple-bind (ask-At (did (restores (some pre_data))) (pg_restore _) _ refl le fresh refl)
        (λ _. Triple-bind (report-At _ _) (λ _. Triple-pure tt (λ tr a. a))))

  only_data-At :
      {r : ℕ} {seen : List (Entry → Bool)} (path : Text) (split : Option SplitContext)
      → r ≤ 10
      → Triple
          (Legal before)
          (At before base r seen t)
          (restore_section w m path split only_data)
          (λ _ tr. At before base 11 (did (restores (some only_data)) ∷ seen) t tr)
  unfolding restore_section run_restore after_section restore_request
  only_data-At path split le = Triple-bind (check_cancel-At w m) (λ _.
      Triple-bind (ask-At (did (restores (some only_data))) (pg_restore _) _ refl le fresh refl)
        (λ _. Triple-bind (report-At _ _) (λ _. copy-At split (ground (arith)))))

  post_data-At :
      {r : ℕ} {seen : List (Entry → Bool)} (path : Text) (split : Option SplitContext)
      → r ≤ 12
      → Triple
          (Legal before)
          (At before base r seen t)
          (restore_section w m path split post_data)
          (λ _ tr. At before base 12 (did (restores (some post_data)) ∷ seen) t tr)
  unfolding restore_section run_restore after_section restore_request
  post_data-At path split le = Triple-bind (check_cancel-At w m) (λ _.
      Triple-bind (ask-At (did (restores (some post_data))) (pg_restore _) _ refl le fresh refl)
        (λ _. Triple-bind (report-At _ _) (λ _. Triple-pure tt (λ tr a. a))))

  sections-At :
      {r : ℕ} {seen : List (Entry → Bool)} (path : Text) (split : Option SplitContext)
      → r ≤ 9
      → Triple
          (Legal before)
          (At before base r seen t)
          (for_sections w m path split restore_sections)
          (λ _ tr. At before base 12 (in_sections seen) t tr)
  unfolding for_sections
  sections-At path split le = Triple-bind (pre_data-At path split le) (λ _.
      Triple-bind (only_data-At path split (ground (arith))) (λ _.
        Triple-bind (post_data-At path split (ground (arith))) (λ _. Triple-pure tt (λ tr a. a))))

  whole-At :
      {r : ℕ} {seen : List (Entry → Bool)} (path : Text) (split : Option SplitContext)
      → r ≤ 9
      → Triple
          (Legal before)
          (At before base r seen t)
          (run_restore w m (restore_request w m path none) >> run_split_copy_stage w m split)
          (λ _ tr. At before base 12 (in_one seen) t tr)
  unfolding run_restore restore_request
  whole-At path split le =
      Triple-bind (ask-At (did (restores none)) (pg_restore _) _ refl le fresh refl)
        (λ _. Triple-to (λ _ tr a. At-later 12 a (ground (arith))) (copy-At split (ground (arith))))

  restore-At :
      {r : ℕ} {seen : List (Entry → Bool)} (path : Text) (split : Option SplitContext)
      → r ≤ 9
      → Triple
          (Legal before)
          (At before base r seen t)
          (restore w m path split)
          (λ _ tr. At before base 12 (in_one seen) t tr ⊎ At before base 12 (in_sections seen) t tr)
  unfolding restore
  restore-At path split le =
      Triple-if (not m.config.split_sections)
        (λ _. Triple-to (λ _ tr a. inl a) (whole-At path split le))
        (λ _. Triple-to (λ _ tr a. inr a) (sections-At path split le))

module _ (w : World) (m : Migrator) {before base : StageSet} where
  -- after the restore: the check, and marking the stage
  marking-At :
      (t : ResumeToken) (seen : List (Entry → Bool)) (path : Text) (last_check : Act (Unit {0}))
      → ((tr : Trace) → At before base 12 seen t tr → done tr Token.restore ≡ true)
      → Triple
          (Legal before)
          (At before base 12 seen t)
          last_check
          (λ _ tr. At before base 12 seen t tr)
      → Triple
          (Legal before)
          (At before base 12 seen t)
          (last_check
            >> (save_resume w m (mark Token.restore t) path >> pure (mark Token.restore t)))
          (λ t' tr. At before (add_stage Token.restore base) 12 seen t' tr)
  unfolding mark
  marking-At t seen path last_check work checked = Triple-bind checked (λ _.
      Triple-bind (Triple-from (λ tr a. At-mark Token.restore a (work tr a)) (save-At w m path))
        (λ _. Triple-pure (mark Token.restore t) (λ tr a. At-hold Token.restore refl a)))

  pub restore_stage-At :
      {r : ℕ} {seen : List (Entry → Bool)} (t : ResumeToken) (path : Text)
      (split : Option SplitContext) (last_check : Act (Unit {0}))
      → r ≤ 9
      → ((seen' : List (Entry → Bool))
          → Triple
              (Legal before)
              (At before base 12 seen' t)
              last_check
              (λ _ tr. At before base 12 seen' t tr))
      → Triple
          (Legal before)
          (At before base r seen t)
          (restore_stage w m t path split last_check)
          (λ t' tr. At before (add_stage Token.restore base) 12 seen t' tr)
  unfolding restore_stage has done
  restore_stage-At {seen = seen} t path split last_check le checked =
      Triple-if (has t Token.restore)
        (λ h. Triple-bind (report-At Progress.restore skipped_resume) (λ _.
          Triple-pure t (λ tr a. At-hold Token.restore h (At-later 12 a (ground (arith, le))))))
        (λ h. Triple-given (not_before w m t Token.restore h) (λ fresh.
          Triple-bind (report-At Progress.restore starting) (λ _.
            Triple-bind (restore-At w m fresh path split le) (λ _.
              Triple-either
                (Triple-to (λ t' tr a. At-forget a)
                  (marking-At t (in_one seen) path last_check (λ tr a. ground (arith, a.sees.0))
                    (checked (in_one seen))))
                (Triple-to (λ t' tr a. At-forget (At-forget (At-forget a)))
                  (marking-At t (in_sections seen) path last_check
                    (λ tr a. ground (arith, a.sees.0, a.sees.1.0, a.sees.1.1.0))
                    (checked (in_sections seen))))))))

  pub verify-At :
      {r : ℕ} {seen : List (Entry → Bool)} {t : ResumeToken}
      → r ≤ 21
      → Triple
          (Legal before)
          (At before base r seen t)
          (run_verify_stage w m)
          (λ _ tr. At before base 21 seen t tr)
  unfolding run_verify_stage judge
  verify-At le =
      Triple-if (Config.is_off m.config.verify)
        (λ _. Triple-to (λ _ tr a. At-later 21 a le) (report-At _ _))
        (λ _.
          Triple-bind (ask_only-At verify_counts (counting w m) 21 le (ground (arith)) refl refl)
            (λ v. Triple-bind (report-At _ _) (λ _.
              Triple-if (not (all_match v) && Config.is_strict m.config.verify)
                (λ _. Triple-fail (config verification_failed) (λ tr a. a.is_legal))
                (λ _. Triple-pure tt (λ tr a. a)))))
