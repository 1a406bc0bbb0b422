-- ===== src/Preflight/Ready.antt =====
-- What the preflight bundles of pg_dbmigrator/src/preflight.rs ask for, in terms of what the tools
-- and the servers answer.
use pg_migrator.Base.{
  ◌++◌, ℕ, suc, ◌≤◌, ℤ, pos, Text, lit, text_eq, trim, mem_text, any, split_char, some, List, All,
  true, false, ◌≡◌, ◌⊎◌,
}
use pg_migrator.Error.{ConfigMessage, config, ok, err}
use pg_migrator.Config.{MigrationConfig}
use pg_migrator.Preflight.Versions.{parse_pg_dump_version, major_of}
use pg_migrator.Preflight.Addresses.{maintenance_connection_string}
use pg_migrator.Preflight.Probes.{
  exited, Probe, PrivilegeRow, Moment, before, after, connect_or_maintenance, server_major_version,
  capture_tool_version, verify_target_extensions_available,
}

abbrev pub Creates : PrivilegeRow → Type 0
Creates info = (info.has_create ≡ true) ⊎ (info.is_super ≡ true)

-- who may create a subscription: from PostgreSQL 16 on, members of a role
abbrev pub Subscribes : PrivilegeRow → Type 0
Subscribes info =
    (info.is_super ≡ true) ⊎ ((16 ≤ major_of info.version_num) × (info.has_sub_role ≡ true))

module _ (p : Probe) where
  -- a tool that runs
  abbrev pub Starts : Text → Type 0
  Starts tool = (status : Text) × (p.spawn tool ≡ exited true status)

  -- a tool that prints its version
  abbrev pub Prints : Text → ℕ → Type 0
  Prints tool v =
      (out : Text) × (capture_tool_version p tool ≡ ok out) × (parse_pg_dump_version out ≡ some v)

  -- the clients are not older than the servers, nor pg_restore than pg_dump
  pub record Versions (source target : Text) : Type 0 where
    pub pg_dump : ℕ
    pub pg_restore : ℕ
    pub source_major : ℕ
    pub target_major : ℕ
    pub prints_dump : Prints (lit "pg_dump") pg_dump
    pub prints_restore : Prints (lit "pg_restore") pg_restore
    pub source_runs : server_major_version p source ≡ ok source_major
    pub target_runs : server_major_version p target ≡ ok target_major
    pub dumps : source_major ≤ pg_dump
    pub restores : target_major ≤ pg_restore
    pub reads_archive : pg_dump ≤ pg_restore

  abbrev pub Primary : Text → Type 0
  Primary target =
      (used : Text) × (connect_or_maintenance p before target ≡ ok used)
      × (p.in_recovery used ≡ ok false)

  abbrev pub Created : Text → Text → Type 0
  Created maintenance name =
      (ident : Text) × (p.quote_ident name ≡ ok ident)
      × (p.run maintenance (lit "CREATE DATABASE " ++ ident) ≡ ok tt)

  -- the target database exists, or is created
  abbrev pub Present : Text → Text → Type 0
  Present target name =
      let maintenance = maintenance_connection_string target in
      (p.connect before maintenance ≡ ok tt)
      × ((p.database_exists maintenance name ≡ ok true)
          ⊎ ((p.database_exists maintenance name ≡ ok false) × Created maintenance name))

  abbrev pub Privileged : (PrivilegeRow → Type 0) → Text → Type 0
  Privileged Allowed target =
      (info : PrivilegeRow) × (p.connect after target ≡ ok tt)
      × (p.privileges target ≡ ok info)
      × Allowed info

  abbrev pub Untimed : Moment → Text → Type 0
  Untimed m source = (p.connect m source ≡ ok tt) × (p.idle_timeout source ≡ ok (pos 0))

  -- the target offers every extension of the source
  abbrev pub Offered : Text → Text → Type 0
  Offered source target =
      (installed : List Text) × (available : List Text) × (p.connect after source ≡ ok tt)
      × (p.connect after target ≡ ok tt)
      × (p.installed source ≡ ok installed)
      × (p.available target ≡ ok available)
      × All (λ e. mem_text e available ≡ true) installed

  -- or the check is refused and restore errors are allowed
  abbrev pub Extended : MigrationConfig → Type 0
  Extended cfg =
      let source = cfg.source.connection_string in
      let target = cfg.target.connection_string in
      Offered source target
      ⊎ ((cfg.allow_restore_errors ≡ true)
          × ((c : ConfigMessage) × (verify_target_extensions_available p source target
                ≡ err (config c))))

  abbrev pub Replicates : Moment → Text → Type 0
  Replicates m source = (p.connect m source ≡ ok tt) × (p.has_replication source ≡ ok true)

  -- a setting that is a positive number
  abbrev pub Positive : Text → Text → Type 0
  Positive source guc =
      (raw : Text) × (n : ℕ) × (p.setting source guc ≡ ok raw)
      × (p.parse_i64 (trim raw) ≡ some (pos (suc n)))

  abbrev pub Logical : Text → Type 0
  Logical source =
      (p.connect after source ≡ ok tt)
      × (p.wal_level source ≡ ok (lit "logical"))
      × Positive source (lit "max_replication_slots")
      × Positive source (lit "max_wal_senders")

  -- at least one worker for the subscription and two processes
  abbrev pub Roomy : Text → Type 0
  Roomy target =
      (workers : ℕ) × (processes : ℕ) × (sync_workers : ℤ) × (p.connect after target ≡ ok tt)
      × (p.capacity target ≡ ok (pos (suc workers), pos (suc (suc processes)), sync_workers))

  abbrev pub Unloaded : Text → Type 0
  Unloaded target =
      (libs : Text) × (p.connect after target ≡ ok tt)
      × (p.preload_libraries target ≡ ok libs)
      × (any (λ l. text_eq (trim l) (lit "pglogical")) (split_char b',' libs) ≡ false)
