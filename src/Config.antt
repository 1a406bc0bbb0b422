-- ===== src/Config.antt =====
-- pg_dbmigrator/src/config.rs: the configuration and its validation. Durations are whole
-- milliseconds; paths are texts.
pub mod Validate
pub mod Endpoint
pub mod Redaction
use pg_migrator.Base.{
  ℕ, Text, Option, none, some, List, Bool, true, false, ◌&&◌, ◌||◌, not, is_empty, is_some, ltb,
  ◌==◌, if◌then◌else◌,
}
use pg_migrator.Error.{
  Result, ok, ◌>>◌, refuse_if, source_conn_empty, target_conn_empty, jobs_zero,
  resume_without_dump_path, split_threshold_zero, split_max_parts_zero, split_schema_only,
  split_with_filters, split_with_resume, split_without_sections, slot_name_empty, publication_empty,
  protocol_version_range, subscription_name_empty, poll_interval_zero, fast_poll_interval_zero,
}

pub data MigrationMode : Type 0 where
  offline online verify : MigrationMode

abbrev pub is_online : MigrationMode → Bool
is_online online = true
is_online _ = false

abbrev pub is_verify : MigrationMode → Bool
is_verify verify = true
is_verify _ = false

pub data VerifyMode : Type 0 where
  off warn strict : VerifyMode

abbrev pub is_off : VerifyMode → Bool
is_off off = true
is_off _ = false

abbrev pub is_strict : VerifyMode → Bool
is_strict strict = true
is_strict _ = false

pub data DumpScope : Type 0 where
  all schema_only data_only : DumpScope

abbrev pub is_schema_only : DumpScope → Bool
is_schema_only schema_only = true
is_schema_only _ = false

pub record EndpointConfig : Type 0 where
  pub connection_string : Text
  pub host : Text
  pub port : ℕ
  pub database : Text
  pub user : Text
  pub password : Text

pub record CutoverConfig : Type 0 where
  pub poll_interval : ℕ
  pub fast_poll_interval : ℕ
  pub lag_threshold_bytes : ℕ

pub record OnlineOptions : Type 0 where
  pub slot_name : Text
  pub publication : Text
  pub protocol_version : ℕ
  pub subscription_name : Text
  pub subscription_source_conn : Option Text
  pub drop_subscription_on_cutover : Bool
  pub force_clean : Bool
  pub sync_sequences_on_cutover : Bool
  pub auto_create_publication : Bool
  pub drop_slot_on_cutover : Bool
  pub cutover : CutoverConfig

pub record MigrationConfig : Type 0 where
  pub mode : MigrationMode
  pub source : EndpointConfig
  pub target : EndpointConfig
  pub dump_scope : DumpScope
  pub drop_target_first : Bool
  pub jobs : ℕ
  pub schemas : List Text
  pub tables : List Text
  pub exclude_schemas : List Text
  pub exclude_tables : List Text
  pub online : OnlineOptions
  pub allow_restore_errors : Bool
  pub no_publications : Bool
  pub no_subscriptions : Bool
  pub split_sections : Bool
  pub split_tables_larger_than : Option ℕ
  pub split_max_parts : ℕ
  pub dump_compress : Option Text
  pub no_sync : Bool
  pub no_comments : Bool
  pub no_security_labels : Bool
  pub no_table_access_method : Bool
  pub skip_analyze : Bool
  pub skip_source_vacuum : Bool
  pub verify : VerifyMode
  pub resume : Bool
  pub resume_file : Option Text
  pub dump_path : Option Text
  pub verbose : Bool

-- `CutoverConfig::validate`
unfoldable pub validate_cutover : CutoverConfig → Result (Unit {0})
validate_cutover c = do
  refuse_if (c.poll_interval == 0) poll_interval_zero
  refuse_if (c.fast_poll_interval == 0) fast_poll_interval_zero

-- `OnlineOptions::validate`
unfoldable pub validate_online : OnlineOptions → Result (Unit {0})
unfolding validate_cutover
validate_online o = do
  refuse_if (is_empty o.slot_name) slot_name_empty
  refuse_if (is_empty o.publication) publication_empty
  refuse_if (o.protocol_version == 0 || ltb 4 o.protocol_version) protocol_version_range
  refuse_if (is_empty o.subscription_name) subscription_name_empty
  validate_cutover o.cutover

-- the tests of `validate_split_copy` once the threshold is set
split_copy_checks : MigrationConfig → ℕ → Result (Unit {0})
split_copy_checks c threshold = do
  refuse_if (threshold == 0) split_threshold_zero
  refuse_if (c.split_max_parts == 0) split_max_parts_zero
  refuse_if (is_schema_only c.dump_scope) split_schema_only
  refuse_if
      (not (is_empty c.schemas)
        || not (is_empty c.tables)
        || not (is_empty c.exclude_schemas)
        || not (is_empty c.exclude_tables))
      split_with_filters
  refuse_if c.resume split_with_resume
  refuse_if (not c.split_sections) split_without_sections

unfoldable pub validate_split_copy : MigrationConfig → Result (Unit {0})
unfolding split_copy_checks
validate_split_copy c = elim c.split_tables_larger_than [
  | none ↦ ok tt
  | some threshold ↦ split_copy_checks c threshold
]

-- `MigrationConfig::validate`
unfoldable pub validate : MigrationConfig → Result (Unit {0})
validate c = do
  refuse_if (is_empty c.source.connection_string) source_conn_empty
  refuse_if (is_empty c.target.connection_string) target_conn_empty
  refuse_if (c.jobs == 0) jobs_zero
  refuse_if (c.resume && not (is_some c.dump_path)) resume_without_dump_path
  if is_online c.mode then validate_online c.online else ok tt
  validate_split_copy c
