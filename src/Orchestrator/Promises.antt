-- ===== src/Orchestrator/Promises.antt =====
-- What `Migrator::run` promises of every run, whether it succeeds, fails or is still applying
-- (pg_dbmigrator/src/orchestrator.rs).
use mathlib.Core.Path.{subst}
use pg_migrator.Apply.Teardown.{Finished}
use pg_migrator.Base.{
  List, sym, Bool-cases, ◌≡◌, refl, ◌≤◌, ◌==◌, ◌⊎◌, inl, inr, Bool, true, false, ◌||◌, [], ◌∷◌,
  ◌++◌, In, any, Text, arith,
}
use pg_migrator.Config.{MigrationMode, offline, online, verify, is_verify}
use pg_migrator.Resume.Token.{CompletedStage, StageSet, has, has_stage, ResumeToken}
use pg_migrator.Resume.Token
use pg_migrator.Dump.{DumpRequest}
use pg_migrator.Restore.Command.{RestoreRequest}
use pg_migrator.CopySplit.Pages.{SplitTable}
use pg_migrator.Orchestrator.Trace.{
  analyze_target, split_copy, pg_restore, verify_publication, ensure_publication, prepare_slot,
  pg_dump, vacuum_source, Outcome, value, Call, Entry, called, saved, applied, failed, waiting,
  Trace, World,
}
use pg_migrator.Orchestrator.Setup.{Migrator}
use pg_migrator.Orchestrator.Run.{MigrationOutcome, run}
use pg_migrator.Orchestrator.Legal.{
  is_wait, did, rank, last_rank, done, covers, superseded, needs_cutover, cuts_over, permitted,
  in_place, legal,
}
use pg_migrator.Orchestrator.Rules.{Post}
use pg_migrator.Orchestrator.Moves.{Legal}
use pg_migrator.Orchestrator.Legality.{Migrated}
use pg_migrator.Orchestrator.Ending.{found, Ending, run-Ending}

-- the trace of a whole run
abbrev pub trace_of : World → Migrator → Trace
trace_of w m = (run w m []).1

module _ (w : World) (m : Migrator) where
  Ending-legal :
      (mode : MigrationMode) (tr : Trace) → Ending w m mode tr → Legal (found w m mode) tr
  Ending-legal offline tr e = e.is_legal
  Ending-legal online tr e = e.is_legal
  Ending-legal verify tr e = e

  Post-legal :
      (o : Outcome MigrationOutcome) (tr : Trace)
      → Post (Legal (found w m m.config.mode)) (λ _ tr'. Ending w m m.config.mode tr') (o, tr)
      → Legal (found w m m.config.mode) tr
  Post-legal (value a) tr h = Ending-legal m.config.mode tr h
  Post-legal (failed e) tr h = h
  Post-legal waiting tr h = h

  -- Every run is legal: each entry of its trace is allowed by the entries before it and by the
  -- stages that the resumed token had completed.
  pub run-is_legal : legal (found w m m.config.mode) (trace_of w m) ≡ true
  run-is_legal = Post-legal (run w m []).0 (run w m []).1 ((run-Ending w m).at [] refl)

  Post-value :
      (mode : MigrationMode) (o : Outcome MigrationOutcome) (tr : Trace) (a : MigrationOutcome)
      → is_verify mode ≡ false
      → o ≡ value a
      → Post (Legal (found w m mode)) (λ _ tr'. Ending w m mode tr') (o, tr)
      → Migrated (found w m mode) tr
  Post-value offline (value b) tr a h e p = p
  Post-value online (value b) tr a h e p = p
  Post-value verify (value b) tr a h e p = ground (arith, h)
  Post-value mode (failed x) tr a h e p = ground (arith, e)
  Post-value mode waiting tr a h e p = ground (arith, e)

  -- A run that migrates and succeeds has dumped and restored: each of the two was complete in the
  -- token it resumed from, or is in its trace as calls that succeeded, for the restore one over
  -- the whole archive or one for each of the three sections.
  pub run-success :
      (outcome : MigrationOutcome)
      → is_verify m.config.mode ≡ false
      → (run w m []).0 ≡ value outcome
      → let before = found w m m.config.mode in
        ((before.has_dump || done (trace_of w m) Token.dump) ≡ true)
        × ((before.has_restore || done (trace_of w m) Token.restore) ≡ true)
  run-success outcome h e =
      let p =
        Post-value m.config.mode (run w m []).0 (run w m []).1 outcome h e
          ((run-Ending w m).at [] refl) in
      (p.dumped, p.restored)

-- what holds of an entry of a legal trace
legal-at :
    (before : StageSet) (newer : Trace) (e : Entry) (past : Trace)
    → legal before (newer ++ e ∷ past) ≡ true
    → (legal before past ≡ true) × (in_place past e ≡ true) × (permitted before past e ≡ true)
unfolding legal
legal-at before [] e past h = (ground (arith, h), ground (arith, h), ground (arith, h))
legal-at before (x ∷ newer) e past h = legal-at before newer e past (ground (arith, h))

rank-last :
    (before : StageSet) (past : Trace) (e : Entry)
    → legal before past ≡ true
    → In e past
    → rank e ≤ last_rank past
unfolding legal last_rank in_place
rank-last before [] e h i = elim i [ ]
rank-last before (x ∷ past) e h (inl same) = rw (same) (ground (arith))
rank-last before (x ∷ past) e h (inr i) =
    ground (arith, rank-last before past e (ground (arith, h)) i, h)

permitted-In :
    (before : StageSet) (tr : Trace) (c : Call) (b : Bool)
    → legal before tr ≡ true
    → In (called c b) tr
    → superseded before c ≡ false
unfolding legal
permitted-In before [] c b h i = elim i [ ]
permitted-In before (x ∷ past) c b h (inl same) =
    let h' = subst (λ e. legal before (e ∷ past) ≡ true) (sym same) h in ground (arith, h')
permitted-In before (x ∷ past) c b h (inr i) = permitted-In before past c b (ground (arith, h)) i

covers-at :
    (before set : StageSet) (tr : Trace) (stage : CompletedStage)
    → covers before tr set ≡ true
    → has_stage stage set ≡ true
    → (has_stage stage before || done tr stage) ≡ true
unfolding covers
covers-at before set tr Token.source_vacuum c h = ground (arith, c, h)
covers-at before set tr Token.prepare_snapshot c h = ground (arith, c, h)
covers-at before set tr Token.dump c h = ground (arith, c, h)
covers-at before set tr Token.restore c h = ground (arith, c, h)
covers-at before set tr Token.analyze c h = ground (arith, c, h)
covers-at before set tr Token.verified c h = ground (arith, c, h)

module _ (w : World) (m : Migrator) where
  -- The entry `e` of a run's trace, after the entries `past`.
  module _ (newer past : Trace) (e : Entry) (split : trace_of w m ≡ newer ++ e ∷ past) where
    at-entry :
        (legal (found w m m.config.mode) past ≡ true)
        × (in_place past e ≡ true)
        × (permitted (found w m m.config.mode) past e ≡ true)
    at-entry =
        legal-at (found w m m.config.mode) newer e past
          (subst (λ tr. legal (found w m m.config.mode) tr ≡ true) split (run-is_legal w m))

    -- The calls of a run are in the order of their places: no call, nor the apply phase, comes
    -- after one whose place is later, but for waiting for the slot, which has no place.
    pub calls_ordered : (early : Entry) → In early past → (rank e ≡ 0) ⊎ (rank early ≤ rank e)
    unfolding in_place
    calls_ordered early i =
        let le = rank-last (found w m m.config.mode) past early at-entry.0 i in
        elim (Bool-cases (rank e == 0)) [
          | inl z ↦ inl (ground (arith, z))
          | inr nz ↦ inr (ground (arith, le, nz, at-entry.1))
        ]

  -- Every token that a run saves is honest: a stage that it has was complete in the token the run
  -- resumed from, or has been done by the calls before the save.
  pub saved_tokens_are_honest :
      (newer past : Trace) (file : Text) (token : ResumeToken) (written : Bool)
      (stage : CompletedStage)
      → trace_of w m ≡ newer ++ saved file token written ∷ past
      → has token stage ≡ true
      → (has_stage stage (found w m m.config.mode) || done past stage) ≡ true
  unfolding has
  saved_tokens_are_honest newer past file token written stage split h =
      covers-at (found w m m.config.mode) token.completed past stage
        (at-entry newer past (saved file token written) split).2 h

  -- whether a run makes the call, with success or without
  abbrev pub Makes : Call → Type 0
  Makes c = (b : Bool) × In (called c b) (trace_of w m)

  unneeded : (c : Call) → superseded (found w m m.config.mode) c ≡ true → ¬ (Makes c)
  unneeded c h (b, i) =
      ground
        (arith, h, permitted-In (found w m m.config.mode) (trace_of w m) c b (run-is_legal w m) i)

  -- A run does not repeat what its token has completed. With the source's vacuum it does not vacuum
  -- the source; with the dump it neither dumps nor creates the slot nor touches or checks the
  -- publication before that; with the restore it runs neither pg_restore nor the split copy; with the
  -- analyze it does not analyze the target. Nothing is said of the stage `PrepareSnapshot` alone.
  pub completed_stages_not_repeated :
      let before = found w m m.config.mode in
      (before.has_source_vacuum ≡ true → ¬ (Makes vacuum_source))
      × (before.has_dump ≡ true
          → ((req : DumpRequest) → ¬ (Makes (pg_dump req)))
            × ¬ (Makes prepare_slot)
            × ((name : Text)
                → ¬ (Makes (ensure_publication name)) × ¬ (Makes (verify_publication name))))
      × (before.has_restore ≡ true
          → ((req : RestoreRequest) → ¬ (Makes (pg_restore req)))
            × ((conn : Text) (tables : List SplitTable) (truncate : Bool)
                → ¬ (Makes (split_copy conn tables truncate))))
      × (before.has_analyze ≡ true → ¬ (Makes analyze_target))
  completed_stages_not_repeated = (
    unneeded vacuum_source,
    (λ h. (
      (λ req. unneeded (pg_dump req) h),
      unneeded prepare_slot h,
      (λ name. (unneeded (ensure_publication name) h, unneeded (verify_publication name) h)),
    )),
    (λ h. (
      (λ req. unneeded (pg_restore req) h),
      (λ conn tables truncate. unneeded (split_copy conn tables truncate) h),
    )),
    unneeded analyze_target,
  )

  -- The synchronisation of the sequences and the clean-up at the end, the dropping of the publication
  -- and of the slot, come only after an apply phase that ended well in a cutover. Nothing is said of
  -- the forced clean-up of stale state at the start of a run, which drops a slot of that name too.
  pub cleanup_only_after_cutover :
      (newer past : Trace) (c : Call) (b : Bool)
      → trace_of w m ≡ newer ++ called c b ∷ past
      → needs_cutover c ≡ true
      → any cuts_over past ≡ true
  cleanup_only_after_cutover newer past c b split needs =
      ground (arith, needs, (at-entry newer past (called c b) split).2)

  -- The apply phase starts only after a wait that found the slot inactive.
  pub apply_only_after_wait :
      (newer past : Trace) (f : Finished)
      → trace_of w m ≡ newer ++ applied f ∷ past
      → any (did is_wait) past ≡ true
  apply_only_after_wait newer past f split = (at-entry newer past (applied f) split).2
