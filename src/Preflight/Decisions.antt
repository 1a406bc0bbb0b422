-- ===== src/Preflight/Decisions.antt =====
-- The decisions of the preflight checks (pg_dbmigrator/src/preflight.rs) that ask nothing:
-- `target_role_privilege_decision`, `classify_snapshot_timeout`, `classify_subscription_capacity`,
-- `decide_extensions_available`, `resolve_extension_preflight` and the report.
use pg_migrator.Base.{
  ℕ, ℤ, pos, int_eq, int_ltb, Text, mem_text, filter, ltb, is_empty, List, [], ◌∷◌, ◌++◌, map, Bool,
  true, false, not, ◌&&◌, if◌then◌else◌,
}
use pg_migrator.Error.{
  config, Result, ok, err, ◌>>◌, refuse_if, target_lacks_create, target_lacks_subscription,
  target_needs_superuser, snapshot_timeout_set, workers_too_few, processes_too_few,
  extensions_missing,
}
use pg_migrator.Config.{MigrationMode, is_online}

unfoldable pub target_role_privilege_decision :
    MigrationMode → ℕ → Bool → Bool → Bool → Result (Unit {0})
target_role_privilege_decision mode target_major has_create is_super has_sub_role = do
  refuse_if (not has_create && not is_super) target_lacks_create
  if is_online mode
      then (if ltb target_major 16
          then refuse_if (not is_super) target_needs_superuser
          else refuse_if (not is_super && not has_sub_role) target_lacks_subscription)
      else ok tt

unfoldable pub classify_snapshot_timeout : ℤ → Result (Unit {0})
classify_snapshot_timeout idle_timeout_ms =
    refuse_if (not (int_eq idle_timeout_ms (pos 0))) (snapshot_timeout_set idle_timeout_ms)

-- `RECOMMENDED_LRW` and `RECOMMENDED_MWP`
abbrev pub recommended_lrw : ℤ
recommended_lrw = pos 1

abbrev pub recommended_mwp : ℤ
recommended_mwp = pos 2

unfoldable pub classify_subscription_capacity : ℤ → ℤ → ℤ → Result (Unit {0})
classify_subscription_capacity logical_workers processes sync_workers = do
  refuse_if (int_ltb logical_workers recommended_lrw) (workers_too_few logical_workers)
  refuse_if (int_ltb processes recommended_mwp) (processes_too_few processes)

-- the extensions of the source that the target does not offer
unfoldable pub missing_extensions : List Text → List Text → List Text
missing_extensions installed available = filter (λ e. not (mem_text e available)) installed

unfoldable pub decide_extensions_available : List Text → List Text → Result (Unit {0})
decide_extensions_available installed available =
    let missing = missing_extensions installed available in
    refuse_if (not (is_empty missing)) (extensions_missing missing)

pub data PreflightOutcome : Type 0 where
  pass skip : PreflightOutcome

unfoldable pub resolve_extension_preflight : Result (Unit {0}) → Bool → Result PreflightOutcome
resolve_extension_preflight (ok _) allow = ok pass
resolve_extension_preflight (err (config c)) allow = if allow then ok skip else err (config c)
resolve_extension_preflight (err e) allow = err e

-- `PreflightReport`: the checks that were made, in order
abbrev pub PreflightReport : Type 0
PreflightReport = List (Text × PreflightOutcome)

-- `PreflightReport::record`
unfoldable pub note : PreflightReport → Text → PreflightOutcome → PreflightReport
note report name outcome = report ++ (name, outcome) ∷ []

abbrev pub is_pass : PreflightOutcome → Bool
is_pass pass = true
is_pass skip = false

-- what `summary_line` prints of each check
unfoldable pub summary_items : PreflightReport → List (Text × Bool)
summary_items report = map (λ (item : Text × PreflightOutcome). (item.0, is_pass item.1)) report

-- `PreflightReport::names`
unfoldable pub names : PreflightReport → List Text
names report = map (λ (item : Text × PreflightOutcome). item.0) report
