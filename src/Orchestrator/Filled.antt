-- ===== src/Orchestrator/Filled.antt =====
-- The stages of `Migrator` (pg_dbmigrator/src/orchestrator.rs) that dump, restore and copy, for one
-- choice of split tables: the last section of the archive is restored after the copy.
use pg_migrator.Error.{Result, err, is_ok, ok}
use pg_migrator.Orchestrator.Trace.{from_result}
use pg_migrator.Orchestrator.Fits.{
  Copied-later, Filled-Closed, Fits-Closed, Reads, Copied, Filled, Fits, Fitting,
}
use pg_migrator.Orchestrator.Rules.{Triple-to, Triple-if, Triple-bind, Triple-pure, Post, Triple}
use pg_migrator.Restore.Command.{post_data}
use pg_migrator.Orchestrator.Rules.{Post, Triple}
use pg_migrator.Restore.Command.{post_data}
use pg_migrator.Base.{
  ℕ, ◌≢◌, Text, Option, none, some, ◌∷◌, Bool, false, not, inl, ◌≡◌, refl, arith,
}
use pg_migrator.Resume.Token.{ResumeToken, has}
use pg_migrator.Resume.Token
use pg_migrator.Progress.{Message}
use pg_migrator.Restore.Command.{
  RestoreSection, pre_data, only_data, post_data, restore_sections, RestoreRequest,
}
use pg_migrator.Orchestrator.Trace.{ask, split_copy, called, Trace, World, Act}
use pg_migrator.Orchestrator.Setup.{Migrator, SplitContext, dump_request, restore_request}
use pg_migrator.Orchestrator.Stages.{
  run_dump, run_restore, dump_stage, run_split_copy_stage, after_section, restore_section,
  for_sections, restore, restore_stage,
}
use pg_migrator.Orchestrator.Calm.{
  Triple-Keeps, Keeps-Triple, Keeps, Keeps-pure, Keeps-if, Keeps-bind, Keeps-report, Keeps-save,
  Keeps-check_cancel,
}

module _ (w : World) (m : Migrator) (split : Option SplitContext) where
  pub Fits-dump_stage :
      (token : ResumeToken) (path : Text) (snapshot : Option Text) (message : Message)
      → Reads split snapshot
      → Keeps (Fits m split) (dump_stage w m token path snapshot split message)
  unfolding dump_stage run_dump ask Fits Fitting dump_request
  Fits-dump_stage token path snapshot message reads =
      Keeps-if (has token Token.dump)
        (Keeps-bind (Keeps-report (Fits-Closed m split) _ _) (λ _. Keeps-pure token))
        (Keeps-bind (Keeps-report (Fits-Closed m split) _ _) (λ _.
          Keeps-bind (record { at = λ tr k. ((refl, reads), k) })
            (λ _. Keeps-bind (Keeps-check_cancel w m) (λ _.
              Keeps-bind (Keeps-report (Fits-Closed m split) _ _) (λ _.
                Keeps-bind (Keeps-save (Fits-Closed m split) w m _ path) (λ _. Keeps-pure _))))))

  -- a restore of an earlier section, or of an archive that is not cut into sections
  Fits-run_restore :
      (req : RestoreRequest)
      → req.section ≢ some post_data
      → (req.section ≡ none → m.config.split_sections ≡ false)
      → Keeps (Fits m split) (run_restore w m req)
  unfolding run_restore ask Fits Fitting
  Fits-run_restore req other cut = record { at = λ tr k. (((λ h. absurd (other h)), cut), k) }

  last_restore :
      (req : RestoreRequest) → req.section ≢ none → Keeps (Filled m split) (run_restore w m req)
  unfolding run_restore ask Fits Fitting Filled
  last_restore req cut = record {
    at = λ tr k. ((((λ h. k.1), (λ h. absurd (cut h))), k.0), Copied-later split _ tr k.1);
  }

  early_section :
      {Q : Trace → Type 0} (path : Text) (s : RestoreSection)
      → some s ≢ some post_data
      → Triple (Fits m split) (Fits m split) (after_section w m split s) (λ _. Q)
      → Triple (Fits m split) (Fits m split) (restore_section w m path split s) (λ _. Q)
  unfolding restore_section restore_request
  early_section path s other t =
      Triple-bind (Keeps-Triple (λ past k. k) (Keeps-check_cancel w m)) (λ _.
        Triple-bind (Keeps-Triple (λ past k. k) (Fits-run_restore _ other (ground arith))) (λ _.
          Triple-bind (Keeps-Triple (λ past k. k) (Keeps-report (Fits-Closed m split) _ _))
            (λ _. t)))

  last_section : (path : Text) → Keeps (Filled m split) (restore_section w m path split post_data)
  unfolding restore_section after_section restore_request
  last_section path = Keeps-bind (Keeps-check_cancel w m) (λ _.
      Keeps-bind (last_restore _ (ground arith))
        (λ _. Keeps-bind (Keeps-report (Filled-Closed m split) _ _) (λ _. Keeps-pure tt)))

module _ (w : World) (m : Migrator) where
  copied :
      (s : SplitContext) (fresh : Bool) (r : Result ℕ) (past : Trace)
      → Fits m (some s) past
      → Post
          (Fits m (some s))
          (λ _. Filled m (some s))
          (from_result r, called (split_copy s.snapshot_id s.plan fresh) (is_ok r) ∷ past)
  unfolding Fits Fitting Filled Copied
  copied s fresh (ok rows) past k = ((refl, k), (fresh, inl refl))
  copied s fresh (err e) past k = (refl, k)

  copying :
      (split : Option SplitContext)
      → Triple (Fits m split) (Fits m split) (run_split_copy_stage w m split) (λ _. Filled m split)
  unfolding run_split_copy_stage ask Filled Copied
  copying none = Triple-pure tt (λ past k. (k, tt))
  copying (some s) =
      Triple-bind (record { at = λ tr k. copied s _ _ tr k })
        (λ rows. Keeps-Triple (λ past k. k.0) (Keeps-report (Filled-Closed m (some s)) _ _))

module _ (w : World) (m : Migrator) (split : Option SplitContext) where
  Filled-Fits : (past : Trace) → Filled m split past → Fits m split past
  unfolding Filled
  Filled-Fits past k = k.0

  sections :
      (path : Text)
      → Triple
          (Fits m split)
          (Fits m split)
          (for_sections w m path split restore_sections)
          (λ _. Filled m split)
  unfolding for_sections after_section
  sections path =
      Triple-bind
        (early_section w m split path pre_data (ground arith) (Triple-pure tt (λ past k. k)))
        (λ _.
          Triple-bind (early_section w m split path only_data (ground arith) (copying w m split))
            (λ _.
              Triple-bind (Keeps-Triple Filled-Fits (last_section w m split path))
                (λ _. Triple-pure tt (λ past k. k))))

  restored :
      (path : Text)
      → Triple (Fits m split) (Fits m split) (restore w m path split) (λ _. Filled m split)
  unfolding restore restore_request
  restored path =
      Triple-if (not m.config.split_sections)
        (λ whole.
          Triple-bind
            (Keeps-Triple (λ past k. k)
              (Fits-run_restore w m split _ (ground arith) (λ _. ground (arith, whole))))
            (λ _. copying w m split))
        (λ _. sections path)

  pub Fits-restore_stage :
      (token : ResumeToken) (path : Text) (last_check : Act (Unit {0}))
      → Keeps (Fits m split) last_check
      → Keeps (Fits m split) (restore_stage w m token path split last_check)
  unfolding restore_stage
  Fits-restore_stage token path last_check k =
      Keeps-if (has token Token.restore)
        (Keeps-bind (Keeps-report (Fits-Closed m split) _ _) (λ _. Keeps-pure token))
        (Keeps-bind (Keeps-report (Fits-Closed m split) _ _) (λ _.
          Keeps-bind (Triple-Keeps _ (Triple-to (λ _ past f. Filled-Fits past f) (restored path)))
            (λ _.
              Keeps-bind k (λ _.
                Keeps-bind (Keeps-save (Fits-Closed m split) w m _ path) (λ _. Keeps-pure _)))))
