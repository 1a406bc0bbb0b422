-- ===== src/Examples/Commands.antt =====
-- A command line and connection strings.
use pg_migrator.Base.{
  ◌≤◌, length, refl, ◌≡◌, ◌≢◌, ◌↔◌, ◌⊎◌, Text, lit, none, some, [], ◌++◌, true, false, arith,
  text_eq, split_char, split_at_text, strip_prefix,
}
use pg_migrator.Error.{ok}
use pg_migrator.Config.{EndpointConfig, MigrationConfig, validate}
use pg_migrator.Config.Endpoint.{
  Parsed, url, parse, of_url, is_postgres, endpoint_of, trim_start_matches, password_text, redacted,
  replace_first,
}
use pg_migrator.Config.Redaction.{redacted_lem}
use pg_migrator.CommandLine.{
  Cli, into_config, config_from, split_size, online_options, migration_mode, scope_of,
  verification_mode,
}
use pg_migrator.CommandLine
use pg_migrator.CommandLine.Accepted.{IsUsable, into_config_iff}

-- a parser that finds the same parts in every text; the password is `p{w`, percent-encoded
abbrev parse_url : Text → Parsed
parse_url conn = url (record {
  scheme = lit "postgres";
  host_str = some (lit "h");
  port = none;
  path = lit "/d";
  username = lit "u";
  password = some (lit "p%7Bw");
})

abbrev leaky : EndpointConfig
leaky = record {
  connection_string = lit "postgres://u:p{w@h/d";
  host = lit "h";
  port = 5432;
  database = lit "d";
  user = lit "u";
  password = lit "p%7Bw";
}

leaky_parsed : parse parse_url (lit "postgres://u:p{w@h/d") ≡ ok leaky
unfolding parse of_url is_postgres endpoint_of lit text_eq trim_start_matches split_char
leaky_parsed = refl

-- the password stands in what is logged
leaky-redacted : redacted leaky ≡ leaky.connection_string
unfolding redacted replace_first password_text lit split_at_text strip_prefix
leaky-redacted = refl

masked_plain : redacted (record leaky { password = lit "p{w" }) ≡ lit "postgres://u:****@h/d"
unfolding redacted replace_first password_text lit split_at_text strip_prefix
masked_plain = refl

leaky_secret : leaky.password ≢ []
unfolding lit
leaky_secret h = ground (arith, h)

redacted_lem_example :
    ((before after : Text) × (leaky.connection_string ≡ before ++ (password_text leaky ++ after))
      × (redacted leaky ≡ before ++ (lit ":****@" ++ after))
      × ((before' after' : Text)
          → leaky.connection_string ≡ before' ++ (password_text leaky ++ after')
          → length before ≤ length before'))
    ⊎ (((before after : Text) → leaky.connection_string ≢ before ++ (password_text leaky ++ after))
        × (redacted leaky ≡ leaky.connection_string))
redacted_lem_example = redacted_lem leaky leaky_secret

-- the defaults of the options, with a threshold for large tables
abbrev cli : Cli
cli = record {
  mode = CommandLine.offline;
  source = lit "postgres://u:p{w@h/d";
  target = lit "postgres://u:p{w@h/d";
  dump_scope = CommandLine.all;
  drop_target_first = false;
  jobs = 4;
  schemas = [];
  tables = [];
  exclude_schemas = [];
  exclude_tables = [];
  slot_name = lit "pg_dbmigrator_slot";
  publication = lit "pg_dbmigrator_pub";
  subscription_name = lit "pg_dbmigrator_sub";
  subscription_source = none;
  keep_subscription = false;
  force_clean = false;
  no_sequence_sync = false;
  no_auto_create_publication = false;
  keep_slot = false;
  protocol_version = 2;
  lag_threshold_bytes = 8192;
  cutover_poll_secs = 5;
  cutover_fast_poll_ms = 1000;
  dump_path = none;
  resume = false;
  resume_file = none;
  allow_restore_errors = false;
  keep_publications = false;
  keep_subscriptions = false;
  split_sections = true;
  no_split_sections = false;
  split_tables_larger_than = some (lit "1GB");
  split_max_parts = 4;
  dump_compress = none;
  keep_sync = false;
  no_table_access_method = false;
  skip_analyze = false;
  skip_source_vacuum = false;
  verify = CommandLine.warn;
  verbose = false;
}

into_config_iff_example :
    ((c : MigrationConfig) × (into_config parse_url cli ≡ ok c) × (validate c ≡ ok tt))
    ↔ IsUsable parse_url cli
into_config_iff_example = into_config_iff parse_url cli
