-- ===== src/Config/Validate.antt =====
-- What an accepted configuration satisfies: `MigrationConfig::validate` of
-- pg_dbmigrator/src/config.rs.
use pg_migrator.Base.{◌<◌, ◌≤◌, none, some, [], true, false, ◌≡◌, ◌≢◌, ◌↔◌, arith}
use pg_migrator.Error.{ok}
use pg_migrator.Config.{
  online, schema_only, OnlineOptions, MigrationConfig, validate_online, validate_split_copy,
  validate,
}

pub record IsOnlineReady (o : OnlineOptions) : Type 0 where
  pub slot_named : o.slot_name ≢ []
  pub publication_named : o.publication ≢ []
  pub protocol_positive : 0 < o.protocol_version
  pub protocol_capped : o.protocol_version ≤ 4
  pub subscription_named : o.subscription_name ≢ []
  pub polls : 0 < o.cutover.poll_interval
  pub polls_fast : 0 < o.cutover.fast_poll_interval

-- What the direct copy of large tables needs of the rest of the configuration.
pub record IsSplitReady (c : MigrationConfig) : Type 0 where
  pub threshold_positive : c.split_tables_larger_than ≢ some 0
  pub streams : 0 < c.split_max_parts
  pub moves_data : c.dump_scope ≢ schema_only
  pub all_schemas : c.schemas ≡ []
  pub all_tables : c.tables ≡ []
  pub no_schema_excluded : c.exclude_schemas ≡ []
  pub no_table_excluded : c.exclude_tables ≡ []
  pub fresh : c.resume ≡ false
  pub in_sections : c.split_sections ≡ true

pub record IsValid (c : MigrationConfig) : Type 0 where
  pub source_given : c.source.connection_string ≢ []
  pub target_given : c.target.connection_string ≢ []
  pub has_jobs : 0 < c.jobs
  pub resumable : c.resume ≡ true → c.dump_path ≢ none
  pub online_ready : c.mode ≡ online → IsOnlineReady c.online
  pub split_ready : c.split_tables_larger_than ≢ none → IsSplitReady c

validate_online_sound : (o : OnlineOptions) → validate_online o ≡ ok tt → IsOnlineReady o
unfolding validate_online
validate_online_sound o h = ground arith

validate_online_complete : (o : OnlineOptions) → IsOnlineReady o → validate_online o ≡ ok tt
unfolding validate_online
validate_online_complete o h = ground arith

validate_split_copy_sound :
    (c : MigrationConfig)
    → validate_split_copy c ≡ ok tt
    → c.split_tables_larger_than ≢ none
    → IsSplitReady c
unfolding validate_split_copy
validate_split_copy_sound c h n = ground arith

validate_split_copy_complete :
    (c : MigrationConfig)
    → (c.split_tables_larger_than ≢ none → IsSplitReady c)
    → validate_split_copy c ≡ ok tt
unfolding validate_split_copy
validate_split_copy_complete c h = ground arith

validate_sound : (c : MigrationConfig) → validate c ≡ ok tt → IsValid c
unfolding validate
validate_sound c h = ground (arith, validate_online_sound c.online, validate_split_copy_sound c)

validate_complete : (c : MigrationConfig) → IsValid c → validate c ≡ ok tt
unfolding validate
validate_complete c h =
    ground (arith, validate_online_complete c.online, validate_split_copy_complete c)

-- A configuration is accepted exactly when it meets every requirement: both endpoints are given,
-- there is a job, a resumed run pins its archive, an online run names its slot, publication and
-- subscription with a protocol version of 1 to 4 and positive poll intervals, and a run that
-- copies large tables directly has a positive threshold and stream count, moves data, filters
-- nothing, does not resume and restores in sections.
pub validate_iff : (c : MigrationConfig) → (validate c ≡ ok tt) ↔ IsValid c
validate_iff c = (validate_sound c, validate_complete c)
