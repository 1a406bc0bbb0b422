-- ===== src/CommandLine.antt =====
-- pg_dbmigrator/src/bin/pg_dbmigrator/args.rs: the command line and the configuration that it
-- stands for. The options that only the replication connection or `main` reads are left out.
pub mod Usable
pub mod Accepted
use pg_migrator.Base.{true, ℕ, ◌*◌, Text, Option, none, some, List, Bool, ◌&&◌, not}
use pg_migrator.Error.{Result, ok, ◌>>=◌}
use pg_migrator.Config.{
  MigrationMode, DumpScope, VerifyMode, EndpointConfig, OnlineOptions, MigrationConfig,
}
use pg_migrator.Config
use pg_migrator.Config.Endpoint.{Parsed, parse}
use pg_migrator.CopySplit.Size.{parse_size}

pub data ModeArg : Type 0 where
  offline online verify : ModeArg

pub data DumpScopeArg : Type 0 where
  all schema_only data_only : DumpScopeArg

pub data VerifyModeArg : Type 0 where
  off warn strict : VerifyModeArg

-- `From<ModeArg> for MigrationMode`
unfoldable pub migration_mode : ModeArg → MigrationMode
migration_mode offline = Config.offline
migration_mode online = Config.online
migration_mode verify = Config.verify

-- `From<DumpScopeArg> for DumpScope`
unfoldable pub scope_of : DumpScopeArg → DumpScope
scope_of all = Config.all
scope_of schema_only = Config.schema_only
scope_of data_only = Config.data_only

-- `From<VerifyModeArg> for VerifyMode`
unfoldable pub verification_mode : VerifyModeArg → VerifyMode
verification_mode off = Config.off
verification_mode warn = Config.warn
verification_mode strict = Config.strict

pub record Cli : Type 0 where
  pub mode : ModeArg
  pub source : Text
  pub target : Text
  pub dump_scope : DumpScopeArg
  pub drop_target_first : Bool
  pub jobs : ℕ
  pub schemas : List Text
  pub tables : List Text
  pub exclude_schemas : List Text
  pub exclude_tables : List Text
  pub slot_name : Text
  pub publication : Text
  pub subscription_name : Text
  pub subscription_source : Option Text
  pub keep_subscription : Bool
  pub force_clean : Bool
  pub no_sequence_sync : Bool
  pub no_auto_create_publication : Bool
  pub keep_slot : Bool
  pub protocol_version : ℕ
  pub lag_threshold_bytes : ℕ
  pub cutover_poll_secs : ℕ
  pub cutover_fast_poll_ms : ℕ
  pub dump_path : Option Text
  pub resume : Bool
  pub resume_file : Option Text
  pub allow_restore_errors : Bool
  pub keep_publications : Bool
  pub keep_subscriptions : Bool
  pub split_sections : Bool
  pub no_split_sections : Bool
  pub split_tables_larger_than : Option Text
  pub split_max_parts : ℕ
  pub dump_compress : Option Text
  pub keep_sync : Bool
  pub no_table_access_method : Bool
  pub skip_analyze : Bool
  pub skip_source_vacuum : Bool
  pub verify : VerifyModeArg
  pub verbose : Bool

-- the online options, whose durations are milliseconds here
unfoldable pub online_options : Cli → OnlineOptions
online_options cli = record {
  slot_name = cli.slot_name;
  publication = cli.publication;
  protocol_version = cli.protocol_version;
  subscription_name = cli.subscription_name;
  subscription_source_conn = cli.subscription_source;
  drop_subscription_on_cutover = not cli.keep_subscription;
  force_clean = cli.force_clean;
  sync_sequences_on_cutover = not cli.no_sequence_sync;
  auto_create_publication = not cli.no_auto_create_publication;
  drop_slot_on_cutover = not cli.keep_slot;
  cutover = record {
    poll_interval = cli.cutover_poll_secs * 1000;
    fast_poll_interval = cli.cutover_fast_poll_ms;
    lag_threshold_bytes = cli.lag_threshold_bytes;
  };
}

-- `option.map(parse_size).transpose()`
unfoldable pub split_size : Option Text → Result (Option ℕ)
split_size none = ok none
split_size (some size) = do bytes ← parse_size size; ok (some bytes)

-- the configuration once its fallible parts are known
unfoldable pub config_from : Cli → EndpointConfig → EndpointConfig → Option ℕ → MigrationConfig
config_from cli source target threshold = record {
  mode = migration_mode cli.mode;
  source = source;
  target = target;
  dump_scope = scope_of cli.dump_scope;
  drop_target_first = cli.drop_target_first;
  jobs = cli.jobs;
  schemas = cli.schemas;
  tables = cli.tables;
  exclude_schemas = cli.exclude_schemas;
  exclude_tables = cli.exclude_tables;
  online = online_options cli;
  allow_restore_errors = cli.allow_restore_errors;
  no_publications = not cli.keep_publications;
  no_subscriptions = not cli.keep_subscriptions;
  split_sections = cli.split_sections && not cli.no_split_sections;
  split_tables_larger_than = threshold;
  split_max_parts = cli.split_max_parts;
  dump_compress = cli.dump_compress;
  no_sync = not cli.keep_sync;
  no_comments = true;
  no_security_labels = true;
  no_table_access_method = cli.no_table_access_method;
  skip_analyze = cli.skip_analyze;
  skip_source_vacuum = cli.skip_source_vacuum;
  verify = verification_mode cli.verify;
  resume = cli.resume;
  resume_file = cli.resume_file;
  dump_path = cli.dump_path;
  verbose = cli.verbose;
}

module _ (parse_url : Text → Parsed) where
  -- `Cli::into_config`
  unfoldable pub into_config : Cli → Result MigrationConfig
  into_config cli = do
    source ← parse parse_url cli.source
    target ← parse parse_url cli.target
    threshold ← split_size cli.split_tables_larger_than
    ok (config_from cli source target threshold)
