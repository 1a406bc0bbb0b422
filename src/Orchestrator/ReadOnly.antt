-- ===== src/Orchestrator/ReadOnly.antt =====
-- A standalone verification, `--mode verify` (pg_dbmigrator/src/orchestrator.rs): what it does and
-- what its success means.
use mathlib.Core.Path.{subst}
use pg_migrator.Verify.Counts.{verify_row_counts}
use pg_migrator.Base.{sym, ap, ◌≡◌, refl, Bool, true, false, not, [], any, arith}
use pg_migrator.Error.{config, verification_failed, Result, ok, err}
use pg_migrator.Config.{MigrationMode, offline, online, verify, validate}
use pg_migrator.Verify.Report.{VerifyReport, mismatches, all_match}
use pg_migrator.Orchestrator.Trace.{
  from_result, report, Outcome, value, failed, waiting, verify_counts, Entry, called, reported,
  Trace, World, lift, ask,
}
use pg_migrator.Orchestrator.Setup.{counting, Migrator}
use pg_migrator.Orchestrator.Run.{MigrationOutcome, run, run_verify, dispatch}
use pg_migrator.Orchestrator.Rules.{Post, Triple, Triple-if, Triple-fail, Triple-pure, Triple-bind}
use pg_migrator.Orchestrator.Ending.{verify-trace}

-- an entry that is neither a count of rows nor a report
abbrev pub writes : Entry → Bool
writes (called verify_counts _) = false
writes (reported _) = false
writes _ = true

Quiet : Trace → Type 0
Quiet tr = any writes tr ≡ false

-- what a successful verification has found
Matched : World → Migrator → Type 0
Matched w m =
    (r : VerifyReport) × (verify_row_counts (w.counters []) m.config ≡ ok r) × (mismatches r ≡ [])

module _ (w : World) (m : Migrator) where
  dispatched :
      (mode : MigrationMode)
      → mode ≡ verify
      → Triple Quiet (λ tr. tr ≡ []) (dispatch w m mode) (λ _ tr. Quiet tr)
  unfolding Quiet any dispatch
  dispatched verify h = verify-trace w m (λ b. refl) (λ e. refl)
  dispatched offline h = ground (arith, h)
  dispatched online h = ground (arith, h)

  validated :
      {P : Trace → Type 0} (r : Result (Unit {0}))
      → P []
      → Triple P (λ tr. tr ≡ []) (lift r) (λ _ tr. tr ≡ [])
  unfolding lift
  validated (ok _) p = record { at = λ tr h. h }
  validated {P = P} (err e) p = record { at = λ tr h. subst P (sym h) p }

  end_reads :
      (o : Outcome MigrationOutcome) (tr : Trace)
      → Post Quiet (λ _ tr'. Quiet tr') (o, tr)
      → any writes tr ≡ false
  unfolding Quiet
  end_reads (value a) tr h = h
  end_reads (failed e) tr h = h
  end_reads waiting tr h = h

  counted :
      (r : Result VerifyReport) (tr : Trace)
      → verify_row_counts (w.counters []) m.config ≡ r
      → Post
          (λ _. Unit {0})
          (λ (report : VerifyReport) _. verify_row_counts (w.counters []) m.config ≡ ok report)
          (from_result r, tr)
  counted (ok r) tr h = h
  counted (err e) tr h = tt

  empty : (r : VerifyReport) → not (all_match r) ≡ false → mismatches r ≡ []
  unfolding all_match
  empty r h = ground (arith, h)

  matched : Triple (λ _. Unit {0}) (λ tr. tr ≡ []) (run_verify w m) (λ _ _. Matched w m)
  unfolding run_verify ask Matched report
  matched =
      Triple-bind {Q = λ r _. verify_row_counts (w.counters []) m.config ≡ ok r}
        (record {
          at = λ tr h. counted (counting w m tr) _ (ap (λ past. counting w m past) (sym h));
        })
        (λ r.
          Triple-bind {Q = λ _ _. verify_row_counts (w.counters []) m.config ≡ ok r}
            (record { at = λ tr h. h })
            (λ _.
              Triple-if (not (all_match r))
                (λ _. Triple-fail (config verification_failed) (λ tr h. tt))
                (λ k. Triple-pure _ (λ tr h. (r, h, empty r k)))))

  matching :
      (mode : MigrationMode)
      → mode ≡ verify
      → Triple (λ _. Unit {0}) (λ tr. tr ≡ []) (dispatch w m mode) (λ _ _. Matched w m)
  unfolding dispatch
  matching verify h = matched
  matching offline h = ground (arith, h)
  matching online h = ground (arith, h)

  end_finds :
      (o : Outcome MigrationOutcome) (tr : Trace) (a : MigrationOutcome)
      → o ≡ value a
      → Post (λ _. Unit {0}) (λ _ _. Matched w m) (o, tr)
      → Matched w m
  end_finds (value b) tr a e h = h
  end_finds (failed x) tr a e h = ground (arith, e)
  end_finds waiting tr a e h = ground (arith, e)

  -- In verify mode a run only counts rows and reports: it saves no token and makes no other call,
  -- however it ends.
  pub verify_mode_reads_only : m.config.mode ≡ verify → any writes (run w m []).1 ≡ false
  unfolding run Quiet any
  verify_mode_reads_only mode = end_reads (run w m []).0 (run w m []).1 (
      (Triple-bind (validated (validate m.config) refl) (λ _. dispatched m.config.mode mode)).at []
        refl)

  -- In verify mode a run that succeeds has counted the rows, and no table's counts differ.
  pub verify_mode-success :
      (outcome : MigrationOutcome)
      → m.config.mode ≡ verify
      → (run w m []).0 ≡ value outcome
      → (r : VerifyReport) × (verify_row_counts (w.counters []) m.config ≡ ok r)
        × (mismatches r ≡ [])
  unfolding run Matched
  verify_mode-success outcome mode h = end_finds (run w m []).0 (run w m []).1 outcome h (
      (Triple-bind (validated (validate m.config) tt) (λ _. matching m.config.mode mode)).at []
        refl)
