-- ===== src/Preflight/Offline.antt =====
-- The offline preflight bundle of pg_dbmigrator/src/preflight.rs: what a pass means.
use pg_migrator.Base.{
  Bool-cases, Text, ◌∷◌, lit, if◌then◌else◌, List, [], ◌≡◌, ◌↔◌, inl, inr, is_some,
}
use pg_migrator.Base.{refl, ap, ◌∙◌}
use pg_migrator.Config.{MigrationConfig, offline}
use pg_migrator.Error.{ok, >>=-eq-ok}
use pg_migrator.Preflight.Decisions.{PreflightOutcome, pass, PreflightReport, names, note}
use pg_migrator.Preflight.Probes.{
  verify_target_role_privileges, ensure_target_database_exists, verify_target_not_in_recovery,
  verify_pg_dump_version_compat, verify_pg_tools_installed, Probe,
}
use pg_migrator.Preflight.Bundles.{
  run_offline_preflight, passed, snapshot_timeouts_if_split, offline_preflight_check_names,
}
use pg_migrator.Preflight.Checks.{
  tools_sound, tools_complete, Versions-sound, Versions-complete, Present-sound, Present-complete,
}
use pg_migrator.Preflight.Servers.{
  Primary-sound, Primary-complete, Privileged-sound, Privileged-complete,
}
use pg_migrator.Preflight.Steps.{
  names-note, IsOfflineReady, may_create, create_allowed, passed-then, Extended-sound,
  Extended-complete, timeouts_sound, timeouts_complete,
}

module _ (p : Probe) (cfg : MigrationConfig) where
  -- the names of `offline_preflight_check_names`, and the conditional check in its place
  abbrev pub offline_names : List Text
  offline_names =
      if is_some cfg.split_tables_larger_than
      then lit "pg_tools"
        ∷ lit "version_compat"
        ∷ lit "target_not_in_recovery"
        ∷ lit "target_db_exists"
        ∷ lit "target_role_privs"
        ∷ lit "source_snapshot_timeouts"
        ∷ lit "extensions_available"
        ∷ []
      else offline_preflight_check_names

  abbrev five : PreflightReport
  five =
      note
        (note
          (note (note (note [] (lit "pg_tools") pass) (lit "version_compat") pass)
            (lit "target_not_in_recovery") pass)
          (lit "target_db_exists") pass)
        (lit "target_role_privs") pass

  names-five :
      names five
      ≡ lit "pg_tools"
        ∷ lit "version_compat"
        ∷ lit "target_not_in_recovery"
        ∷ lit "target_db_exists"
        ∷ lit "target_role_privs"
        ∷ []
  unfolding names note
  names-five = refl

  timed_names :
      (r : PreflightReport) (o : PreflightOutcome)
      → names r
        ≡ lit "pg_tools"
          ∷ lit "version_compat"
          ∷ lit "target_not_in_recovery"
          ∷ lit "target_db_exists"
          ∷ lit "target_role_privs"
          ∷ []
      → names (
          note
            (if is_some cfg.split_tables_larger_than
              then note r (lit "source_snapshot_timeouts") pass
              else r)
            (lit "extensions_available")
            o)
        ≡ offline_names
  timed_names r o h = elim (Bool-cases (is_some cfg.split_tables_larger_than)) [
    | inl e ↦ rw (e, names-note, names-note, h)
    | inr e ↦ rw (e, names-note, h)
  ]

  offline_sound :
      (report : PreflightReport)
      → run_offline_preflight p cfg ≡ ok report
      → IsOfflineReady p cfg × (names report ≡ offline_names)
  unfolding run_offline_preflight
  offline_sound report h =
      let source = cfg.source.connection_string in
      let target = cfg.target.connection_string in
      let (tools, h1) = passed-then p cfg (verify_pg_tools_installed p source target) _ [] _ h in
      let (versions, h2) =
        passed-then p cfg (verify_pg_dump_version_compat p source target) _ _ _ h1 in
      let (primary, h3) = passed-then p cfg (verify_target_not_in_recovery p target) _ _ _ h2 in
      let (present, h4) =
        passed-then p cfg (ensure_target_database_exists p target cfg.target.database) _ _ _ h3 in
      let (role, h5) =
        passed-then p cfg (verify_target_role_privileges p target offline) _ _ _ h4 in
      let (r6, e6, h6) = >>=-eq-ok (snapshot_timeouts_if_split p cfg five) _ h5 in
      let (info, a, b, allowed) = Privileged-sound p target offline role in
      let (untimed, e) = timeouts_sound p cfg five e6 in
      let (extended, (outcome, f)) = Extended-sound p cfg r6 h6 in
      (
        record {
          shared = record {
            tools = tools_sound p source target tools;
            versions = Versions-sound p source target versions;
            primary = Primary-sound p target primary;
            present = Present-sound p source target cfg.target.database present;
            privileged = (info, a, b, may_create info allowed);
            extended = extended;
          };
          untimed = untimed;
        },
        ap names f
            ∙ ap (λ r. names (note r (lit "extensions_available") outcome)) e
            ∙ timed_names five outcome names-five,
      )

  offline_complete :
      IsOfflineReady p cfg → (report : PreflightReport) × (run_offline_preflight p cfg ≡ ok report)
  unfolding run_offline_preflight passed
  offline_complete v =
      let source = cfg.source.connection_string in
      let target = cfg.target.connection_string in
      rw
        (
          tools_complete p source target v.shared.tools,
          Versions-complete p source target v.shared.versions,
          Primary-complete p target v.shared.primary,
          Present-complete p source target cfg.target.database v.shared.present,
          Privileged-complete p target offline (
            v.shared.privileged.0,
            v.shared.privileged.1,
            v.shared.privileged.2,
            create_allowed v.shared.privileged.0 v.shared.privileged.3,
          ),
          timeouts_complete p cfg _ v.untimed,
        )
        (Extended-complete p cfg _ v.shared.extended)

  -- The offline bundle passes exactly where its conditions hold: the tools run, the clients are not
  -- older than the servers, the target is a primary, its database exists or is created, its role may
  -- create objects, the source's idle timeout is off where the direct copy is on, and the target
  -- offers the source's extensions, or the refusal is allowed.
  pub run_offline_preflight_iff :
      ((report : PreflightReport) × (run_offline_preflight p cfg ≡ ok report))
      ↔ IsOfflineReady p cfg
  run_offline_preflight_iff = ((λ (report, h). (offline_sound report h).0), offline_complete)
