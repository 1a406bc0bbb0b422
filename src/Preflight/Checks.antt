-- ===== src/Preflight/Checks.antt =====
-- The checks of the tools, of the extensions and of the target database (preflight.rs under
-- pg_dbmigrator/src) succeed exactly where their conditions hold.
use pg_migrator.Preflight.Probes.{installed_and_available_extensions}
use pg_migrator.Base.{
  ℕ, Text, lit, mem_text, filter, some, List, [], ◌∷◌, All, Bool, true, false, Bool-cases,
  if◌then◌else◌, ◌≡◌, ◌⊎◌, inl, inr, refl, arith,
}
use pg_migrator.Preflight.Versions.{
  parse_pg_dump_version, decide_pg_dump_compat, decide_pg_restore_compat,
}
use pg_migrator.Preflight.Addresses.{maintenance_connection_string}
use pg_migrator.Preflight.Decisions.{missing_extensions, decide_extensions_available}
use pg_migrator.Error.{ok, >>=-eq-ok, >>-eq-ok}
use pg_migrator.Preflight.Probes.{
  Spawned, exited, tool_not_found, spawn_failed, Probe, before, after, classify_version_check,
  check_tools, verify_pg_tools_installed, required_tools, server_major_version,
  capture_tool_version, parsed_version, verify_pg_dump_version_compat,
  verify_target_extensions_available, ensure_target_database_exists, create_database,
}
use pg_migrator.Preflight.Ready.{Starts, Versions, Created, Present, Offered}

-- nothing is missing exactly where every extension is offered
filter-none :
    (available installed : List Text)
    → All (λ e. mem_text e available ≡ true) installed
    → missing_extensions installed available ≡ []
unfolding missing_extensions filter
filter-none available [] h = refl
filter-none available (e ∷ es) h = ground (arith, filter-none available es h.1)

none-filter :
    (available installed : List Text)
    → missing_extensions installed available ≡ []
    → All (λ e. mem_text e available ≡ true) installed
unfolding missing_extensions filter
none-filter available [] h = tt
none-filter available (e ∷ es) h = elim (Bool-cases (mem_text e available)) [
  | inl q ↦ (q, none-filter available es (rw q at h))
  | inr q ↦ absurd (ground arith)
]

module _ (p : Probe) where
  classify_sound :
      (tool : Text) (s : Spawned)
      → classify_version_check p.path tool s ≡ ok tt
      → (status : Text) × (s ≡ exited true status)
  unfolding classify_version_check
  classify_sound tool (exited true status) h = (status, refl)
  classify_sound tool (exited false status) h = cc
  classify_sound tool tool_not_found h = cc
  classify_sound tool (spawn_failed e) h = cc

  check_tools_sound :
      (source target : Text) (tools : List Text)
      → check_tools p source target tools ≡ ok tt
      → All (Starts p) tools
  unfolding check_tools
  check_tools_sound source target [] h = tt
  check_tools_sound source target (tool ∷ tools) h =
      let started : classify_version_check p.path tool (p.spawn tool) ≡ ok tt = ground arith in
      let others : check_tools p source target tools ≡ ok tt = ground arith in
      (classify_sound tool (p.spawn tool) started, check_tools_sound source target tools others)

  check_tools_complete :
      (source target : Text) (tools : List Text)
      → All (Starts p) tools
      → check_tools p source target tools ≡ ok tt
  unfolding check_tools classify_version_check
  check_tools_complete source target [] h = refl
  check_tools_complete source target (tool ∷ tools) h =
      ground (arith, check_tools_complete source target tools h.1)

  module _ (source target : Text) where
    pub tools_sound :
        verify_pg_tools_installed p source target ≡ ok tt → All (Starts p) required_tools
    unfolding verify_pg_tools_installed
    tools_sound h = check_tools_sound source target required_tools h

    pub tools_complete :
        All (Starts p) required_tools → verify_pg_tools_installed p source target ≡ ok tt
    unfolding verify_pg_tools_installed
    tools_complete h = check_tools_complete source target required_tools h

    parsed_sound :
        (tool out : Text) (v : ℕ)
        → parsed_version p tool out ≡ ok v
        → parse_pg_dump_version out ≡ some v
    unfolding parsed_version
    parsed_sound tool out v h = ground arith

    pub Versions-sound :
        verify_pg_dump_version_compat p source target ≡ ok tt → Versions p source target
    unfolding verify_pg_dump_version_compat decide_pg_dump_compat decide_pg_restore_compat
    Versions-sound h =
        let (dump_out, a, h1) = >>=-eq-ok (capture_tool_version p (lit "pg_dump")) _ h in
        let (restore_out, b, h2) = >>=-eq-ok (capture_tool_version p (lit "pg_restore")) _ h1 in
        let (s, c, h3) = >>=-eq-ok (server_major_version p source) _ h2 in
        let (t, d, h4) = >>=-eq-ok (server_major_version p target) _ h3 in
        let (dump, e, h5) = >>=-eq-ok (parsed_version p (lit "pg_dump") dump_out) _ h4 in
        let (restore, f, h6) = >>=-eq-ok (parsed_version p (lit "pg_restore") restore_out) _ h5 in
        record {
          pg_dump = dump;
          pg_restore = restore;
          source_major = s;
          target_major = t;
          prints_dump = (dump_out, a, parsed_sound _ dump_out dump e);
          prints_restore = (restore_out, b, parsed_sound _ restore_out restore f);
          source_runs = c;
          target_runs = d;
          dumps = ground arith;
          restores = ground arith;
          reads_archive = ground arith;
        }

    pub Versions-complete :
        Versions p source target → verify_pg_dump_version_compat p source target ≡ ok tt
    unfolding verify_pg_dump_version_compat decide_pg_dump_compat decide_pg_restore_compat
        parsed_version
    Versions-complete v = ground arith

    pub extensions_complete :
        Offered p source target → verify_target_extensions_available p source target ≡ ok tt
    unfolding verify_target_extensions_available decide_extensions_available
        installed_and_available_extensions
    extensions_complete h = ground (arith, filter-none h.1 h.0)

    pub extensions_sound :
        verify_target_extensions_available p source target ≡ ok tt → Offered p source target
    unfolding verify_target_extensions_available decide_extensions_available
        installed_and_available_extensions
    extensions_sound h =
        let (lists, e, h0) = >>=-eq-ok (installed_and_available_extensions p source target) _ h in
        let (a, h1) = >>-eq-ok (p.connect after source) _ e in
        let (b, h2) = >>-eq-ok (p.connect after target) _ h1 in
        let (installed, c, h3) = >>=-eq-ok (p.installed source) _ h2 in
        let (available, d, h4) = >>=-eq-ok (p.available target) _ h3 in
        (installed, available, a, b, c, d, none-filter available installed (ground arith))

    present_by :
        (name : Text) (there : Bool)
        → p.database_exists (maintenance_connection_string target) name ≡ ok there
        → (if there then ok tt else create_database p (maintenance_connection_string target) name)
          ≡ ok tt
        → (p.database_exists (maintenance_connection_string target) name ≡ ok true)
          ⊎ ((p.database_exists (maintenance_connection_string target) name ≡ ok false)
              × Created p (maintenance_connection_string target) name)
    unfolding create_database
    present_by name true e h = inl e
    present_by name false e h =
        let (ident, a, h1) = >>=-eq-ok (p.quote_ident name) _ h in inr (e, (ident, a, h1))

    pub Present-complete :
        (name : Text) → Present p target name → ensure_target_database_exists p target name ≡ ok tt
    unfolding ensure_target_database_exists create_database
    Present-complete name h = ground arith

    pub Present-sound :
        (name : Text) → ensure_target_database_exists p target name ≡ ok tt → Present p target name
    unfolding ensure_target_database_exists
    Present-sound name h =
        let maintenance = maintenance_connection_string target in
        let (a, h1) = >>-eq-ok (p.connect before maintenance) _ h in
        let (there, b, h2) = >>=-eq-ok (p.database_exists maintenance name) _ h1 in
        (a, present_by name there b h2)
