-- ===== src/Orchestrator/Cutting.antt =====
-- The synchronised sequences and the cleanup of `Migrator` after a cutover keep the run legal.
use pg_migrator.Base.{◌≡◌, refl, ℕ, Bool, true, false, not, ◌&&◌, List, ◌∷◌, arith, if◌then◌else◌}
use pg_migrator.Resume.Token.{StageSet, ResumeToken}
use pg_migrator.Apply.Loop.{ApplyStats}
use pg_migrator.Orchestrator.Trace.{
  wait_slot_inactive, sync_sequences, drop_slot, drop_publication, Entry, World, pure,
}
use pg_migrator.Orchestrator.Setup.{syncing, Migrator}
use pg_migrator.Orchestrator.Run.{
  sequences_stage, drop_created_publication, drop_slot_after_cutover, cleanup_source_after_cutover,
  cleanup_stage,
}
use pg_migrator.Orchestrator.Legal.{cuts_over}
use pg_migrator.Orchestrator.Rules.{Triple, Triple-pure, Triple-if, Triple-to, Triple-bind}
use pg_migrator.Orchestrator.State.{At, At-later}
use pg_migrator.Orchestrator.Moves.{Legal, report-At}
use pg_migrator.Orchestrator.Applying.{
  attempt_any-At, wait-step, cut-step, best_effort-At, cut_seen,
}

module _ (w : World) (m : Migrator) {before base : StageSet} {seen : List (Entry → Bool)}
    {t : ResumeToken} where
  -- after a cutover
  synced-At :
      (stats : ApplyStats)
      → stats.cutover_triggered ≡ true
      → Triple
          (Legal before)
          (At before base 17 (cuts_over ∷ seen) t)
          (sequences_stage w m stats)
          (λ _ tr. At before base 18 (cuts_over ∷ seen) t tr)
  unfolding sequences_stage
  synced-At stats h =
      Triple-if (not (stats.cutover_triggered && m.config.online.sync_sequences_on_cutover))
        (λ _. Triple-pure tt (λ tr a. At-later 18 a (ground (arith))))
        (λ _. Triple-bind (report-At _ _) (λ _.
          Triple-bind
            (attempt_any-At sync_sequences (syncing w m)
              (cut-step sync_sequences (ground (arith)) refl))
            (λ _. report-At _ _)))

  unsynced-At :
      {r : ℕ} (stats : ApplyStats)
      → stats.cutover_triggered ≡ false
      → Triple
          (Legal before)
          (At before base r seen t)
          (sequences_stage w m stats)
          (λ _ tr. At before base r seen t tr)
  unfolding sequences_stage
  unsynced-At stats h =
      Triple-if (not (stats.cutover_triggered && m.config.online.sync_sequences_on_cutover))
        (λ _. Triple-pure tt (λ tr a. a)) (λ k. ground (arith, h, k))

  publication-At :
      (created : Bool)
      → Triple
          (Legal before)
          (At before base 18 (cuts_over ∷ seen) t)
          (drop_created_publication w m created)
          (λ _ tr. At before base 19 (cuts_over ∷ seen) t tr)
  unfolding drop_created_publication
  publication-At false = Triple-pure tt (λ tr a. At-later 19 a (ground (arith)))
  publication-At true = Triple-bind (report-At _ _) (λ _.
      best_effort-At w m (drop_publication _) (cut-step (drop_publication _) (ground (arith)) refl))

  slot-At :
      Triple
        (Legal before)
        (At before base 19 (cuts_over ∷ seen) t)
        (drop_slot_after_cutover w m)
        (λ _ tr. At before base 20 (cuts_over ∷ seen) t tr)
  unfolding drop_slot_after_cutover
  slot-At =
      Triple-if (not m.config.online.drop_slot_on_cutover)
        (λ _. Triple-pure tt (λ tr a. At-later 20 a (ground (arith))))
        (λ _. Triple-bind (report-At _ _) (λ _.
          Triple-bind (best_effort-At w m wait_slot_inactive wait-step)
            (λ _. best_effort-At w m drop_slot (cut-step drop_slot (ground (arith)) refl))))

  cleanup-At :
      (created : Bool)
      → Triple
          (Legal before)
          (At before base 18 (cuts_over ∷ seen) t)
          (cleanup_source_after_cutover w m created)
          (λ _ tr. At before base 20 (cuts_over ∷ seen) t tr)
  unfolding cleanup_source_after_cutover
  cleanup-At created = Triple-bind (publication-At created) (λ _. slot-At)

module _ (w : World) (m : Migrator) {before base : StageSet} (seen : List (Entry → Bool))
    {t : ResumeToken} where
  sequences_for :
      (stats : ApplyStats) (b : Bool)
      → stats.cutover_triggered ≡ b
      → Triple
          (Legal before)
          (At before base 17 (cut_seen b seen) t)
          (sequences_stage w m stats)
          (λ _ tr. At before base 18 (cut_seen b seen) t tr)
  sequences_for stats true h = synced-At w m stats h
  sequences_for stats false h =
      Triple-to (λ _ tr a. At-later 18 a (ground (arith))) (unsynced-At w m stats h)

  pub sequences-At :
      (stats : ApplyStats)
      → Triple
          (Legal before)
          (At before base 17 (cut_seen stats.cutover_triggered seen) t)
          (sequences_stage w m stats)
          (λ _ tr. At before base 18 (cut_seen stats.cutover_triggered seen) t tr)
  sequences-At stats = sequences_for stats stats.cutover_triggered refl

  cleanup_for :
      (token : ResumeToken) (b : Bool)
      → Triple
          (Legal before)
          (At before base 18 (cut_seen b seen) t)
          (if b then cleanup_source_after_cutover w m token.pub_auto_created else pure tt)
          (λ _ tr. At before base 20 (cut_seen b seen) t tr)
  cleanup_for token true = cleanup-At w m token.pub_auto_created
  cleanup_for token false = Triple-pure tt (λ tr a. At-later 20 a (ground (arith)))

  pub cleanup_stage-At :
      (stats : ApplyStats) (token : ResumeToken)
      → Triple
          (Legal before)
          (At before base 18 (cut_seen stats.cutover_triggered seen) t)
          (cleanup_stage w m stats token)
          (λ _ tr. At before base 20 (cut_seen stats.cutover_triggered seen) t tr)
  unfolding cleanup_stage
  cleanup_stage-At stats token = cleanup_for token stats.cutover_triggered
