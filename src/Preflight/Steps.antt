-- ===== src/Preflight/Steps.antt =====
-- What the preflight bundles of pg_dbmigrator/src/preflight.rs ask for, and the steps that they
-- share.
use pg_migrator.Base.{
  map-append, [], ◌∷◌, ◌++◌, none, Text, lit, if◌then◌else◌, ◌≡◌, ◌≢◌, arith, All, Bool, true,
  false, inl, inr, ◌⊎◌, is_some,
}
use pg_migrator.Base.{refl}
use pg_migrator.Preflight.Versions.{major_of}
use pg_migrator.Config.{MigrationConfig, offline, online}
use pg_migrator.Error.{◌>>=◌, ConfigMessage, Result, ok, err, config, >>=-eq-ok}
use pg_migrator.Preflight.Decisions.{
  names, skip, PreflightOutcome, pass, PreflightReport, note, target_role_privilege_decision,
  resolve_extension_preflight,
}
use pg_migrator.Preflight.Probes.{
  verify_target_extensions_available, Probe, required_tools, before, after, PrivilegeRow,
}
use pg_migrator.Preflight.Bundles.{passed, extensions_checked, snapshot_timeouts_if_split}
use pg_migrator.Preflight.Ready.{
  Starts, Versions, Primary, Present, Privileged, Creates, Subscribes, Untimed, Extended,
  Replicates, Logical, Roomy, Unloaded,
}
use pg_migrator.Preflight.Checks.{extensions_sound, extensions_complete}
use pg_migrator.Preflight.Servers.{Untimed-iff}

pub resolved :
    (r : Result (Unit {0})) (allow : Bool) {o : PreflightOutcome}
    → resolve_extension_preflight r allow ≡ ok o
    → (r ≡ ok tt) ⊎ ((allow ≡ true) × ((c : ConfigMessage) × (r ≡ err (config c))))
unfolding resolve_extension_preflight
resolved (ok _) allow h = inl refl
resolved (err (config c)) true h = inr (refl, (c, refl))
resolved (err (config c)) false h = cc
resolved (err e) allow h = cc

pub names-note :
    (r : PreflightReport) (name : Text) (o : PreflightOutcome)
    → names (note r name o) ≡ names r ++ name ∷ []
unfolding names note
names-note r name o = map-append _ r _

pub may_create :
    (info : PrivilegeRow)
    → (target_role_privilege_decision offline
          (major_of info.version_num)
          info.has_create
          info.is_super
          info.has_sub_role
        ≡ ok tt)
    → Creates info
unfolding target_role_privilege_decision
may_create info h = ground arith

pub create_allowed :
    (info : PrivilegeRow)
    → Creates info
    → (target_role_privilege_decision offline
          (major_of info.version_num)
          info.has_create
          info.is_super
          info.has_sub_role
        ≡ ok tt)
unfolding target_role_privilege_decision
create_allowed info h = ground arith

pub may_subscribe :
    (info : PrivilegeRow)
    → (target_role_privilege_decision online
          (major_of info.version_num)
          info.has_create
          info.is_super
          info.has_sub_role
        ≡ ok tt)
    → Creates info × Subscribes info
unfolding target_role_privilege_decision
may_subscribe info h = ground arith

pub subscribe_allowed :
    (info : PrivilegeRow)
    → Creates info
    → Subscribes info
    → (target_role_privilege_decision online
          (major_of info.version_num)
          info.has_create
          info.is_super
          info.has_sub_role
        ≡ ok tt)
unfolding target_role_privilege_decision
subscribe_allowed info h k = ground arith

module _ (p : Probe) (cfg : MigrationConfig) where
  -- What both bundles ask for, where `Allowed` is what the target's role may do.
  pub record IsReady (Allowed : PrivilegeRow → Type 0) : Type 0 where
    pub tools : All (Starts p) required_tools
    pub versions : Versions p cfg.source.connection_string cfg.target.connection_string
    pub primary : Primary p cfg.target.connection_string
    pub present : Present p cfg.target.connection_string cfg.target.database
    pub privileged : Privileged p Allowed cfg.target.connection_string
    pub extended : Extended p cfg

  -- the direct copy holds a snapshot open
  pub record IsOfflineReady : Type 0 where
    pub shared : IsReady Creates
    pub untimed : cfg.split_tables_larger_than ≢ none → Untimed p after cfg.source.connection_string

  pub record IsOnlineReady : Type 0 where
    pub shared : IsReady (λ info. Creates info × Subscribes info)
    pub untimed : Untimed p before cfg.source.connection_string
    pub replicates : Replicates p before cfg.source.connection_string
    pub logical : Logical p cfg.source.connection_string
    pub roomy : Roomy p cfg.target.connection_string
    pub unloaded : Unloaded p cfg.target.connection_string

  -- a check that passes is recorded, and the bundle goes on
  pub passed-then :
      (check : Result (Unit {0})) (name : Text) (r : PreflightReport)
      (rest : PreflightReport → Result PreflightReport) {out : PreflightReport}
      → (passed p cfg check name r >>= rest) ≡ ok out
      → (check ≡ ok tt) × (rest (note r name pass) ≡ ok out)
  unfolding passed
  passed-then (ok _) name r rest h = (refl, h)
  passed-then (err e) name r rest h = cc

  pub passed_sound :
      (check : Result (Unit {0})) (name : Text) (r : PreflightReport) {out : PreflightReport}
      → passed p cfg check name r ≡ ok out
      → (check ≡ ok tt) × (out ≡ note r name pass)
  unfolding passed
  passed_sound (ok _) name r h = (refl, cc)
  passed_sound (err e) name r h = cc

  pub Extended-sound :
      (r : PreflightReport) {r' : PreflightReport}
      → extensions_checked p cfg r ≡ ok r'
      → Extended p cfg × ((o : PreflightOutcome) × (r' ≡ note r (lit "extensions_available") o))
  unfolding extensions_checked
  Extended-sound r h =
      let source = cfg.source.connection_string in
      let target = cfg.target.connection_string in
      let (outcome, e, h1) =
        >>=-eq-ok
          (resolve_extension_preflight (verify_target_extensions_available p source target)
            cfg.allow_restore_errors)
          _ h in
      (
        elim (resolved (verify_target_extensions_available p source target) cfg.allow_restore_errors
            e) [
              | inl accepted ↦ inl (extensions_sound p source target accepted)
              | inr allowed ↦ inr allowed
            ],
        (outcome, cc),
      )

  pub Extended-complete :
      (r : PreflightReport)
      → Extended p cfg
      → (r' : PreflightReport) × (extensions_checked p cfg r ≡ ok r')
  unfolding extensions_checked resolve_extension_preflight
  Extended-complete r (inl h) = (
    note r (lit "extensions_available") pass,
    rw (extensions_complete p cfg.source.connection_string cfg.target.connection_string h),
  )
  Extended-complete r (inr h) = (note r (lit "extensions_available") skip, rw (h.1.1, h.0))

  pub timeouts_sound :
      (r : PreflightReport) {r' : PreflightReport}
      → snapshot_timeouts_if_split p cfg r ≡ ok r'
      → (cfg.split_tables_larger_than ≢ none → Untimed p after cfg.source.connection_string)
        × (r' ≡ (
            if is_some cfg.split_tables_larger_than
            then note r (lit "source_snapshot_timeouts") pass
            else r))
  unfolding snapshot_timeouts_if_split passed
  timeouts_sound r h = ground (arith, (Untimed-iff p after cfg.source.connection_string).0)

  pub timeouts_complete :
      (r : PreflightReport)
      → (cfg.split_tables_larger_than ≢ none → Untimed p after cfg.source.connection_string)
      → snapshot_timeouts_if_split p cfg r
        ≡ ok (
            if is_some cfg.split_tables_larger_than
            then note r (lit "source_snapshot_timeouts") pass
            else r)
  unfolding snapshot_timeouts_if_split passed
  timeouts_complete r h = ground (arith, (Untimed-iff p after cfg.source.connection_string).1)
