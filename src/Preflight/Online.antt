-- ===== src/Preflight/Online.antt =====
-- The online preflight bundle of pg_dbmigrator/src/preflight.rs: what a pass means.
use pg_migrator.Base.{◌↔◌}
use pg_migrator.Base.{lit, [], ◌≡◌}
use pg_migrator.Base.{refl, ap, ◌∙◌}
use pg_migrator.Config.{MigrationConfig, online}
use pg_migrator.Error.{ok, >>=-eq-ok}
use pg_migrator.Preflight.Decisions.{PreflightOutcome, pass, PreflightReport, names, note}
use pg_migrator.Preflight.Probes.{
  ensure_pglogical_not_interfering, verify_target_subscription_capacity,
  verify_source_logical_replication_ready, verify_source_snapshot_timeouts,
  verify_source_replication_role, verify_target_role_privileges, ensure_target_database_exists,
  verify_target_not_in_recovery, verify_pg_dump_version_compat, verify_pg_tools_installed, Probe,
  before,
}
use pg_migrator.Preflight.Bundles.{
  run_online_preflight, passed, extensions_checked, online_preflight_check_names,
}
use pg_migrator.Preflight.Checks.{
  tools_sound, tools_complete, Versions-sound, Versions-complete, Present-sound, Present-complete,
}
use pg_migrator.Preflight.Servers.{
  Primary-sound, Primary-complete, Privileged-sound, Privileged-complete, Replicates-iff,
  Untimed-iff, Logical-sound, Logical-complete, Roomy-sound, Roomy-complete, Unloaded-sound,
  Unloaded-complete,
}
use pg_migrator.Preflight.Steps.{
  passed_sound, IsOnlineReady, may_subscribe, subscribe_allowed, passed-then, Extended-sound,
  Extended-complete,
}

module _ (p : Probe) (cfg : MigrationConfig) where
  abbrev seven : PreflightReport
  seven =
      note
        (note
          (note
            (note
              (note (note (note [] (lit "pg_tools") pass) (lit "version_compat") pass)
                (lit "source_repl_role") pass)
              (lit "source_snapshot_timeouts") pass)
            (lit "target_not_in_recovery") pass)
          (lit "target_db_exists") pass)
        (lit "target_role_privs") pass

  abbrev eleven : PreflightOutcome → PreflightReport
  eleven o =
      note
        (note (note (note seven (lit "extensions_available") o) (lit "source_logical_repl") pass)
          (lit "target_sub_capacity") pass)
        (lit "pglogical_clean") pass

  names-eleven : (o : PreflightOutcome) → names (eleven o) ≡ online_preflight_check_names
  unfolding names note
  names-eleven o = refl

  online_sound :
      (report : PreflightReport)
      → run_online_preflight p cfg ≡ ok report
      → IsOnlineReady p cfg × (names report ≡ online_preflight_check_names)
  unfolding run_online_preflight
  online_sound report h =
      let source = cfg.source.connection_string in
      let target = cfg.target.connection_string in
      let (tools, h1) = passed-then p cfg (verify_pg_tools_installed p source target) _ [] _ h in
      let (versions, h2) =
        passed-then p cfg (verify_pg_dump_version_compat p source target) _ _ _ h1 in
      let (replicates, h3) =
        passed-then p cfg (verify_source_replication_role p before source) _ _ _ h2 in
      let (untimed, h4) =
        passed-then p cfg (verify_source_snapshot_timeouts p before source) _ _ _ h3 in
      let (primary, h5) = passed-then p cfg (verify_target_not_in_recovery p target) _ _ _ h4 in
      let (present, h6) =
        passed-then p cfg (ensure_target_database_exists p target cfg.target.database) _ _ _ h5 in
      let (role, h7) = passed-then p cfg (verify_target_role_privileges p target online) _ _ _ h6 in
      let (r8, e8, h8) = >>=-eq-ok (extensions_checked p cfg seven) _ h7 in
      let (extended, (outcome, f)) = Extended-sound p cfg seven e8 in
      let (logical, h9) =
        passed-then p cfg (verify_source_logical_replication_ready p source) _ r8 _ h8 in
      let (roomy, h10) =
        passed-then p cfg (verify_target_subscription_capacity p target) _ _ _ h9 in
      let (unloaded, e) = passed_sound p cfg (ensure_pglogical_not_interfering p target) _ _ h10 in
      let (info, a, b, allowed) = Privileged-sound p target online role in
      (
        record {
          shared = record {
            tools = tools_sound p source target tools;
            versions = Versions-sound p source target versions;
            primary = Primary-sound p target primary;
            present = Present-sound p source target cfg.target.database present;
            privileged = (info, a, b, may_subscribe info allowed);
            extended = extended;
          };
          untimed = (Untimed-iff p before source).0 untimed;
          replicates = (Replicates-iff p before source).0 replicates;
          logical = Logical-sound p source logical;
          roomy = Roomy-sound p target roomy;
          unloaded = Unloaded-sound p target unloaded;
        },
        ap names e
            ∙ ap
                (λ r. names (
                  note
                    (note (note r (lit "source_logical_repl") pass) (lit "target_sub_capacity")
                      pass)
                    (lit "pglogical_clean") pass))
                f
            ∙ names-eleven outcome,
      )

  online_complete :
      IsOnlineReady p cfg → (report : PreflightReport) × (run_online_preflight p cfg ≡ ok report)
  unfolding run_online_preflight passed
  online_complete v =
      let source = cfg.source.connection_string in
      let target = cfg.target.connection_string in
      let (info, a, b, allowed) = v.shared.privileged in
      let (r8, extensions) = Extended-complete p cfg seven v.shared.extended in
      (
        note (note (note r8 (lit "source_logical_repl") pass) (lit "target_sub_capacity") pass)
            (lit "pglogical_clean") pass,
        rw (
          tools_complete p source target v.shared.tools,
          Versions-complete p source target v.shared.versions,
          (Replicates-iff p before source).1 v.replicates,
          (Untimed-iff p before source).1 v.untimed,
          Primary-complete p target v.shared.primary,
          Present-complete p source target cfg.target.database v.shared.present,
          Privileged-complete p target online
              (info, a, b, subscribe_allowed info allowed.0 allowed.1),
          extensions,
          Logical-complete p source v.logical,
          Roomy-complete p target v.roomy,
          Unloaded-complete p target v.unloaded,
        ),
      )

  -- The online bundle passes exactly where its conditions hold: those that the offline bundle asks
  -- for with the idle timeout off in any case, and a source that replicates logically with a role
  -- that may, a target with the workers for a subscription, a role that may create one, and no
  -- pglogical library.
  pub run_online_preflight_iff :
      ((report : PreflightReport) × (run_online_preflight p cfg ≡ ok report)) ↔ IsOnlineReady p cfg
  run_online_preflight_iff = ((λ (report, h). (online_sound report h).0), online_complete)
