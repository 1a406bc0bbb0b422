-- ===== src/Preflight/Servers.antt =====
-- The checks of pg_dbmigrator/src/preflight.rs that ask one server each succeed exactly where their
-- conditions hold.
use pg_migrator.Preflight.Probes.{
  idle_in_transaction_timeout_ms, is_in_recovery, role_has_replication_or_super,
  subscription_capacity_gucs, target_role_privilege_info,
}
use pg_migrator.Base.{
  ℕ, zero, suc, ℤ, pos, negsuc, int_ltb, int_eq, Text, lit, trim, text_eq, text_eq_iff,
  text_eq_refl, Option, none, some, false, not, ◌≡◌, ◌↔◌, refl, ap, arith,
}
use pg_migrator.Config.{MigrationMode}
use pg_migrator.Preflight.Versions.{major_of}
use pg_migrator.Preflight.Decisions.{
  classify_snapshot_timeout, classify_subscription_capacity, target_role_privilege_decision,
}
use pg_migrator.Error.{
  ConfigMessage, config, guc_unparsable, guc_not_positive, refuse_if, ok, err, >>=-eq-ok, >>-eq-ok,
}
use pg_migrator.Preflight.Probes.{
  Probe, Moment, before, after, verify_target_not_in_recovery, connect_or_maintenance,
  verify_target_role_privileges, verify_source_replication_role, verify_source_snapshot_timeouts,
  check_guc, verify_source_logical_replication_ready, verify_target_subscription_capacity,
  ensure_pglogical_not_interfering,
}
use pg_migrator.Preflight.Ready.{
  Primary, Privileged, Untimed, Replicates, Positive, Logical, Roomy, Unloaded,
}

at_least_one : (a : ℤ) → int_ltb a (pos 1) ≡ false → (n : ℕ) × (a ≡ pos (suc n))
unfolding int_ltb
at_least_one (pos zero) h = cc
at_least_one (pos (suc n)) h = (n, refl)
at_least_one (negsuc n) h = cc

at_least_two : (a : ℤ) → int_ltb a (pos 2) ≡ false → (n : ℕ) × (a ≡ pos (suc (suc n)))
unfolding int_ltb
at_least_two (pos zero) h = cc
at_least_two (pos (suc zero)) h = cc
at_least_two (pos (suc (suc n))) h = (n, refl)
at_least_two (negsuc n) h = cc

positive_value :
    (o : Option ℤ) (c : ConfigMessage) (d : ℤ → ConfigMessage)
    → elim o [ none ↦ err (config c) | some parsed ↦ refuse_if (int_ltb parsed (pos 1)) (d parsed) ]
      ≡ ok tt
    → (n : ℕ) × (o ≡ some (pos (suc n)))
positive_value none c d h = cc
positive_value (some v) c d h = let (n, e) = at_least_one v (ground arith) in (n, ap some e)

module _ (p : Probe) where
  pub Primary-sound :
      (target : Text) → verify_target_not_in_recovery p target ≡ ok tt → Primary p target
  unfolding verify_target_not_in_recovery is_in_recovery
  Primary-sound target h =
      let (recovering, e, last) = >>=-eq-ok (is_in_recovery p target) _ h in
      let (used, connected, answered) = >>=-eq-ok (connect_or_maintenance p before target) _ e in
      (used, connected, ground arith)

  pub Primary-complete :
      (target : Text) → Primary p target → verify_target_not_in_recovery p target ≡ ok tt
  unfolding verify_target_not_in_recovery is_in_recovery
  Primary-complete target h = ground arith

  pub Privileged-sound :
      (target : Text) (mode : MigrationMode)
      → verify_target_role_privileges p target mode ≡ ok tt
      → Privileged p
          (λ info.
            target_role_privilege_decision mode
              (major_of info.version_num)
              info.has_create
              info.is_super
              info.has_sub_role
            ≡ ok tt)
          target
  unfolding verify_target_role_privileges target_role_privilege_info
  Privileged-sound target mode h =
      let (info, e, h0) = >>=-eq-ok (target_role_privilege_info p target) _ h in
      let (a, h1) = >>-eq-ok (p.connect after target) _ e in
      let (row, b, h2) = >>=-eq-ok (p.privileges target) _ h1 in (row, a, b, ground arith)

  pub Privileged-complete :
      (target : Text) (mode : MigrationMode)
      → Privileged p
          (λ info.
            target_role_privilege_decision mode
              (major_of info.version_num)
              info.has_create
              info.is_super
              info.has_sub_role
            ≡ ok tt)
          target
      → verify_target_role_privileges p target mode ≡ ok tt
  unfolding verify_target_role_privileges target_role_privilege_info
  Privileged-complete target mode h = ground arith

  pub Replicates-iff :
      (m : Moment) (source : Text)
      → (verify_source_replication_role p m source ≡ ok tt) ↔ Replicates p m source
  unfolding verify_source_replication_role role_has_replication_or_super
  Replicates-iff m source = ground arith

  pub Untimed-iff :
      (m : Moment) (source : Text)
      → (verify_source_snapshot_timeouts p m source ≡ ok tt) ↔ Untimed p m source
  unfolding verify_source_snapshot_timeouts idle_in_transaction_timeout_ms classify_snapshot_timeout
      int_eq
  Untimed-iff m source = ground arith

  Positive-sound : (source guc : Text) → check_guc p source guc ≡ ok tt → Positive p source guc
  unfolding check_guc
  Positive-sound source guc h =
      let (raw, a, h1) = >>=-eq-ok (p.setting source guc) _ h in
      let (n, e) =
        positive_value (p.parse_i64 (trim raw)) (guc_unparsable guc raw) (guc_not_positive guc)
          h1 in
      (raw, n, a, e)

  Positive-complete : (source guc : Text) → Positive p source guc → check_guc p source guc ≡ ok tt
  unfolding check_guc int_ltb
  Positive-complete source guc h = ground arith

  pub Logical-sound :
      (source : Text) → verify_source_logical_replication_ready p source ≡ ok tt → Logical p source
  unfolding verify_source_logical_replication_ready
  Logical-sound source h =
      let (a, h1) = >>-eq-ok (p.connect after source) _ h in
      let (level, b, h2) = >>=-eq-ok (p.wal_level source) _ h1 in
      let (c, h3) = >>-eq-ok (refuse_if (not (text_eq level (lit "logical"))) _) _ h2 in
      let (d, e) = >>-eq-ok (check_guc p source (lit "max_replication_slots")) _ h3 in
      (
        a,
        ground (arith, text_eq_iff level (lit "logical")),
        Positive-sound source _ d,
        Positive-sound source _ e,
      )

  pub Logical-complete :
      (source : Text) → Logical p source → verify_source_logical_replication_ready p source ≡ ok tt
  unfolding verify_source_logical_replication_ready
  Logical-complete source h = ground (
    arith,
    text_eq_refl (lit "logical"),
    Positive-complete source (lit "max_replication_slots") h.2,
    Positive-complete source (lit "max_wal_senders") h.3,
  )

  pub Roomy-sound :
      (target : Text) → verify_target_subscription_capacity p target ≡ ok tt → Roomy p target
  unfolding verify_target_subscription_capacity subscription_capacity_gucs
      classify_subscription_capacity
  Roomy-sound target h =
      let (gucs, e0, h2) = >>=-eq-ok (subscription_capacity_gucs p target) _ h in
      let (a, b) = >>-eq-ok (p.connect after target) _ e0 in
      let (w, e) = at_least_one gucs.0 (ground arith) in
      let (q, f) = at_least_two gucs.1 (ground arith) in (w, q, gucs.2, a, ground arith)

  pub Roomy-complete :
      (target : Text) → Roomy p target → verify_target_subscription_capacity p target ≡ ok tt
  unfolding verify_target_subscription_capacity subscription_capacity_gucs
      classify_subscription_capacity int_ltb
  Roomy-complete target h = ground arith

  pub Unloaded-sound :
      (target : Text) → ensure_pglogical_not_interfering p target ≡ ok tt → Unloaded p target
  unfolding ensure_pglogical_not_interfering
  Unloaded-sound target h =
      let (a, h1) = >>-eq-ok (p.connect after target) _ h in
      let (libs, b, h2) = >>=-eq-ok (p.preload_libraries target) _ h1 in (libs, a, b, ground arith)

  pub Unloaded-complete :
      (target : Text) → Unloaded p target → ensure_pglogical_not_interfering p target ≡ ok tt
  unfolding ensure_pglogical_not_interfering
  Unloaded-complete target h = ground arith
