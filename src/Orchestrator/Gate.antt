-- ===== src/Orchestrator/Gate.antt =====
-- What a run of `Migrator::run` (pg_dbmigrator/src/orchestrator.rs) does before its preflight
-- bundle has passed.
use pg_migrator.Base.{none, some, [], ◌∷◌, false, ◌≡◌, ◌≢◌, ◌⊎◌, inl, inr, refl}
use pg_migrator.Error.{Result, ok, Result-cases, MigrationError}
use pg_migrator.Config.{MigrationMode, offline, online, verify, MigrationConfig, validate}
use pg_migrator.Preflight.Probes.{Probe}
use pg_migrator.Preflight.Steps.{IsOfflineReady, IsOnlineReady}
use pg_migrator.Preflight.Decisions.{PreflightReport}
use pg_migrator.Preflight.Bundles.{run_offline_preflight, run_online_preflight}
use pg_migrator.Preflight.Offline.{run_offline_preflight_iff}
use pg_migrator.Preflight.Online.{run_online_preflight_iff}
use pg_migrator.Orchestrator.Trace.{
  Call, called, offline_preflight, online_preflight, World, Trace, Act, Outcome, failed, ◌>>=◌,
  lift, fail, ask,
}
use pg_migrator.Orchestrator.Setup.{Migrator}
use pg_migrator.Orchestrator.Run.{
  MigrationOutcome, run_offline, run_online, run, dispatch, after_preflight, preflight,
}

-- a run that has failed with nothing done but the preflight bundle
abbrev pub Refused : Call → Outcome MigrationOutcome × Trace → Type 0
Refused c r = ((e : MigrationError) × (r.0 ≡ failed e)) × ((r.1 ≡ []) ⊎ (r.1 ≡ called c false ∷ []))

-- the call of a mode's bundle, where it has one
abbrev pub bundle_call : MigrationMode → Call
bundle_call online = online_preflight
bundle_call _ = offline_preflight

-- what a mode's bundle asks for; a verification has none
abbrev pub Ready : MigrationMode → Probe → MigrationConfig → Type 0
Ready offline p cfg = IsOfflineReady p cfg
Ready online p cfg = IsOnlineReady p cfg
Ready verify p cfg = Unit {0}

module _ (w : World) (m : Migrator) where
  -- the probe, if the bundle passes on it
  abbrev Admitted : (Probe → Result PreflightReport) → Type 0
  Admitted bundle =
      (p : Probe) × (items : PreflightReport) × (w.probe [] ≡ some p) × (bundle p ≡ ok items)

  raced_gate :
      (c : Call) (bundle : Probe → Result PreflightReport) (rest : Act MigrationOutcome) (o : _)
      → w.probe [] ≡ o
      → Admitted bundle ⊎ Refused c (after_preflight w m c bundle rest [])
  unfolding after_preflight preflight ◌>>=◌ ask fail
  raced_gate c bundle rest none e = inr (rw e ((_, refl), inl refl))
  raced_gate c bundle rest (some p) e = elim (Result-cases (bundle p)) [
    | inl (items, q) ↦ inl (p, items, e, q)
    | inr (problem, q) ↦ inr (rw (e, q) ((problem, refl), inr refl))
  ]

  dispatch_gate :
      (mode : MigrationMode)
      → mode ≢ verify
      → ((p : Probe) × (w.probe [] ≡ some p) × Ready mode p m.config)
        ⊎ Refused (bundle_call mode) (dispatch w m mode [])
  unfolding dispatch
  dispatch_gate offline h =
      elim (raced_gate offline_preflight (λ p. run_offline_preflight p m.config) (run_offline w m)
        (w.probe []) refl) [
          | inl (p, items, e, q) ↦ inl (p, e, (run_offline_preflight_iff p m.config).0 (items, q))
          | inr refused ↦ inr refused
        ]
  dispatch_gate online h =
      elim (raced_gate online_preflight (λ p. run_online_preflight p m.config) (run_online w m)
        (w.probe []) refl) [
          | inl (p, items, e, q) ↦ inl (p, e, (run_online_preflight_iff p m.config).0 (items, q))
          | inr refused ↦ inr refused
        ]
  dispatch_gate verify h = absurd (h refl)

  -- Where the mode is not verification: either the configuration is valid and the environment meets
  -- the conditions of the mode's preflight bundle, or the run fails, and its trace is empty or holds
  -- the failed bundle alone.
  pub run_gate :
      m.config.mode ≢ verify
      → ((validate m.config ≡ ok tt)
          × ((p : Probe) × (w.probe [] ≡ some p) × Ready m.config.mode p m.config))
        ⊎ Refused (bundle_call m.config.mode) (run w m [])
  unfolding run ◌>>=◌ lift
  run_gate h = elim (Result-cases (validate m.config)) [
    | inl (u, valid) ↦ elim (dispatch_gate m.config.mode h) [
      | inl ready ↦ inl (valid, ready)
      | inr refused ↦ inr (rw valid refused)
    ]
    | inr (e, invalid) ↦ inr (rw invalid ((e, refl), inl refl))
  ]
