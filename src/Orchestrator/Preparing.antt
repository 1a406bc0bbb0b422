-- ===== src/Orchestrator/Preparing.antt =====
-- The publication and slot steps of `Migrator::run_online` keep the run legal.
use pg_migrator.Orchestrator.Setup.{preparing}
use pg_migrator.Base.{◌≡◌, refl, ℕ, ◌≤◌, Bool, true, false, not, List, Text, arith}
use pg_migrator.Resume.Token.{
  CompletedStage, StageSet, has_stage, add_stage, ResumeToken, mark, has,
}
use pg_migrator.Resume.Token
use pg_migrator.Orchestrator.Trace.{
  Entry, World, prepare_slot, ensure_publication, verify_publication,
}
use pg_migrator.Orchestrator.Setup.{ensuring, Migrator}
use pg_migrator.Orchestrator.Run.{
  answered, call, note_created, publication_stage, slot_stage, prepare_stage,
}
use pg_migrator.Orchestrator.Legal.{did, done, is_slot}
use pg_migrator.Orchestrator.Rules.{
  Triple, Triple-pure, Triple-if, Triple-from, Triple-given, Triple-bind,
}
use pg_migrator.Orchestrator.State.{At, At-later, At-forget, At-mark, At-same}
use pg_migrator.Orchestrator.Moves.{Legal, report-At, save-At, ask-At, ask_only-At}
use pg_migrator.Orchestrator.Steps.{not_before}

module _ (w : World) (m : Migrator) {before base : StageSet} {seen : List (Entry → Bool)} where
  created-At :
      {r : ℕ} (t : ResumeToken) (path : Text) (created : Bool)
      → Triple
          (Legal before)
          (At before base r seen t)
          (note_created w m t path created)
          (λ t' tr. At before base r seen t' tr)
  unfolding note_created
  created-At t path false = Triple-pure t (λ tr a. a)
  created-At t path true =
      Triple-bind
        (Triple-from (λ tr a. At-same (record t { pub_auto_created = true }) refl a)
          (save-At w m path))
        (λ _. Triple-pure _ (λ tr a. a))

  publication-At :
      {r : ℕ} (t : ResumeToken) (path : Text)
      → r ≤ 4
      → before.has_dump ≡ false
      → Triple
          (Legal before)
          (At before base r seen t)
          (publication_stage w m t path)
          (λ t' tr. At before base 4 seen t' tr)
  unfolding publication_stage call
  publication-At t path le fresh =
      Triple-if (not m.config.online.auto_create_publication)
        (λ _.
          Triple-bind
            (Triple-bind (report-At _ _) (λ _.
              ask_only-At (verify_publication _)
                (answered w m (verify_publication m.config.online.publication)) 4 le
                (ground (arith)) fresh refl))
            (λ _. Triple-pure t (λ tr a. a)))
        (λ _. Triple-bind (report-At _ _) (λ _.
          Triple-bind
            (ask_only-At (ensure_publication _) (ensuring w m) 4 le (ground (arith)) fresh refl)
            (λ created. created-At t path created)))

  slot-At :
      {r : ℕ} (t : ResumeToken) (path : Text)
      → r ≤ 5
      → before.has_dump ≡ false
      → Triple
          (Legal before)
          (At before base r seen t)
          (slot_stage w m t path)
          (λ t' tr. At before base 5 seen t' tr)
  unfolding slot_stage done
  slot-At t path le fresh = Triple-bind (report-At _ _) (λ _.
      Triple-bind (ask-At (did is_slot) prepare_slot (preparing w m) refl le fresh refl)
        (λ snapshot.
          Triple-bind
            (Triple-from
              (λ tr a.
                At-same (record (mark Token.prepare_snapshot t) { snapshot_name = snapshot }) refl
                  (At-forget (At-mark Token.prepare_snapshot a a.sees.0)))
              (save-At w m path))
            (λ _. Triple-pure _ (λ tr a. a))))

  pub prepare-At :
      {r : ℕ} (t : ResumeToken) (path : Text)
      → r ≤ 4
      → Triple
          (Legal before)
          (At before base r seen t)
          (prepare_stage w m t path)
          (λ t' tr. At before base 5 seen t' tr)
  unfolding prepare_stage
  prepare-At t path le =
      Triple-if (has t Token.dump)
        (λ _.
          Triple-bind (report-At _ _)
            (λ _. Triple-pure t (λ tr a. At-later 5 a (ground (arith, le)))))
        (λ h. Triple-given (not_before w m t Token.dump h) (λ fresh.
          Triple-bind (publication-At t path le fresh)
            (λ published. slot-At published path (ground (arith)) fresh)))
