-- ===== src/Examples/Data.antt =====
-- Example configurations and an example outside world.
use pg_migrator.Apply.Stale.{Admin}
use pg_migrator.Maintenance.{Maintenance}
use pg_migrator.Sequences.{SyncServers}
use pg_migrator.Snapshot.{Streams}
use pg_migrator.Preflight.Probes.{Probe, exited, ran}
use pg_migrator.Base.{◌++◌}
use pg_migrator.Verify.Counts.{Counters}
use pg_migrator.Publication.{Source}
use pg_migrator.Base.{pos, ℕ, zero, suc, lit, none, some, List, [], ◌∷◌, true, false}
use pg_migrator.Error.{ok}
use pg_migrator.Config.{MigrationMode, all, warn, EndpointConfig, OnlineOptions, MigrationConfig}
use pg_migrator.Apply.Loop.{Tick, slept}
use pg_migrator.Apply.Teardown.{Target}
use pg_migrator.Resume.File.{not_found}
use pg_migrator.CopySplit.Run.{Servers}
use pg_migrator.Orchestrator.Trace.{World}
use pg_migrator.Orchestrator.Setup.{Migrator}

abbrev pub endpoint : EndpointConfig
endpoint = record {
  connection_string = lit "postgres://u@h/d";
  host = lit "h";
  port = 5432;
  database = lit "d";
  user = lit "u";
  password = [];
}

abbrev pub options : OnlineOptions
options = record {
  slot_name = lit "slot";
  publication = lit "pub";
  protocol_version = 2;
  subscription_name = lit "sub";
  subscription_source_conn = none;
  drop_subscription_on_cutover = true;
  force_clean = false;
  sync_sequences_on_cutover = true;
  auto_create_publication = true;
  drop_slot_on_cutover = true;
  cutover = record { poll_interval = 5000; fast_poll_interval = 500; lag_threshold_bytes = 100 };
}

abbrev pub config_of : MigrationMode → MigrationConfig
config_of mode = record {
  mode = mode;
  source = endpoint;
  target = endpoint;
  dump_scope = all;
  drop_target_first = false;
  jobs = 4;
  schemas = [];
  tables = [];
  exclude_schemas = [];
  exclude_tables = [];
  online = options;
  allow_restore_errors = false;
  no_publications = true;
  no_subscriptions = true;
  split_sections = true;
  split_tables_larger_than = none;
  split_max_parts = 4;
  dump_compress = none;
  no_sync = false;
  no_comments = false;
  no_security_labels = false;
  no_table_access_method = false;
  skip_analyze = false;
  skip_source_vacuum = false;
  verify = warn;
  resume = false;
  resume_file = none;
  dump_path = none;
  verbose = false;
}

abbrev pub migrator_of : MigrationMode → Migrator
migrator_of mode = record { config = config_of mode; dump_path = none }

-- an iteration of the apply loop that sees the operator's request
abbrev pub cutover_tick : Tick
cutover_tick = record {
  cancelled = false;
  elapsed = 0;
  wake = slept;
  cancelled_after_wait = false;
  requested = true;
  sample = ok (7, 7);
  health = ok [];
}

-- an iteration on an idle source
abbrev pub idle_tick : Tick
idle_tick = record cutover_tick { requested = false }

abbrev pub target : Target
target = record {
  quote_ident = λ name. ok tt;
  subscription_exists = ok false;
  build = λ c. ok tt;
  run = λ c. ok tt;
  prepare = ok tt;
}

abbrev pub servers : Servers
servers = record {
  is_cancelled = λ t. false;
  open_target = λ t. ok tt;
  occupied = λ t. ok false;
  truncate = λ t. ok tt;
  copy_parts = λ t. some (ok (3 ∷ 4 ∷ []));
}

-- servers that hold two rows in each of two tables
abbrev pub counters : Counters
counters = record {
  connect = some (ok tt);
  list_tables = some (ok ((lit "a", lit "t") ∷ (lit "b", lit "v") ∷ []));
  connect_pair = λ slice. some (ok tt);
  is_cancelled = λ qt. false;
  quote_ident = λ name. ok name;
  count = λ q. some (ok (pos 2), ok (pos 2));
}

-- a source without the publication
abbrev pub source : Source
source = record {
  quote_ident = λ name. ok name;
  connect = ok tt;
  exists = ok false;
  tables = ok (lit "a.t" ∷ lit "b.v" ∷ []);
  run = λ sql. ok tt;
}

-- one sequence at 7, one that was never advanced
abbrev pub sync_servers : SyncServers
sync_servers = record {
  connect_source = ok tt;
  connect_target = ok tt;
  user_sequences = ok (
      record { schema = lit "a"; name = lit "s"; last_value = some (pos 7) }
      ∷ record { schema = lit "a"; name = lit "fresh"; last_value = none }
      ∷ []);
  sequences_in = λ schemas. ok [];
  quoting = record { ident = λ name. ok name; literal = λ text. ok text };
  target = record {
    execute_setval = λ log sql value. ok 1;
    batch_execute_sql = λ log sql. ok tt;
    query_batch_applied = λ log. ok (pos 2);
  };
}

-- a stream that exports a snapshot
abbrev pub streams : Streams
streams = record {
  open_stream = λ address options. ok tt;
  ensure_replication_slot = ok tt;
  exported_snapshot_name = some (lit "snap");
}

-- clients of version 16 between two servers of version 16 whose databases exist
abbrev pub probe : Probe
probe = record {
  path = none;
  spawn = λ tool. exited true (lit "0");
  capture = λ tool. ran true (lit "0") (some (tool ++ lit " (PostgreSQL) 16.4"));
  connect = λ m conn. ok tt;
  version_num = λ conn. ok (pos 160004);
  has_replication = λ conn. ok true;
  privileges = λ conn. ok (record {
    version_num = pos 160004;
    has_create = true;
    is_super = false;
    has_sub_role = true;
  });
  in_recovery = λ conn. ok false;
  database_exists = λ conn name. ok true;
  quote_ident = λ name. ok name;
  run = λ conn sql. ok tt;
  idle_timeout = λ conn. ok (pos 0);
  installed = λ conn. ok (lit "plpgsql" ∷ []);
  available = λ conn. ok (lit "plpgsql" ∷ lit "hstore" ∷ []);
  wal_level = λ conn. ok (lit "logical");
  setting = λ conn guc. ok (lit "10");
  parse_i64 = λ raw. some (pos 10);
  capacity = λ conn. ok (pos 4, pos 8, pos 2);
  preload_libraries = λ conn. ok (lit "pg_stat_statements");
}

-- two tables in each schema
abbrev pub maintenance : Maintenance
maintenance = record {
  connect = λ conn. ok tt;
  quote_ident = λ name. ok name;
  list_relations = λ schema query. ok (lit "t" ∷ lit "v" ∷ []);
  execute = λ sql. ok tt;
}

abbrev pub admin : Admin
admin = record {
  connect = λ conn. ok tt;
  quote_ident = λ name. ok name;
  quote_literal = λ name. ok name;
  execute = λ conn command. ok tt;
}

-- a world in which everything succeeds
abbrev pub world : World
world = record {
  is_cancelled = λ tr. false;
  probe = λ tr. some probe;
  answer = λ c tr. ok tt;
  source = λ tr. source;
  streams = λ tr. streams;
  planned = λ tr. ok [];
  exported = λ tr. ok (lit "exported");
  maintenance = λ tr. maintenance;
  admin = λ tr. admin;
  runner = λ tr i. ok tt;
  is_dir = λ tr p. false;
  servers = λ tr. servers;
  counters = λ tr. counters;
  sequences = λ tr. sync_servers;
  apply_target = λ tr. target;
  ticks = λ tr. cutover_tick ∷ [];
  read_token = λ p. not_found;
  from_slice = λ bytes. none;
  write_token = λ p t tr. ok tt;
  hasher = λ items. lit "hash";
  temp_path = λ prefix. prefix;
}

abbrev pub drop {ℓ} : {A : Type ℓ} → ℕ → List A → List A
drop zero xs = xs
drop (suc n) [] = []
drop (suc n) (x ∷ xs) = drop n xs
