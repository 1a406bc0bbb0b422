-- ===== src/CommandLine/Usable.antt =====
-- What a command line (pg_dbmigrator/src/bin/pg_dbmigrator/args.rs) needs for an online migration and
-- for the direct copy, and that the validation of its configuration asks for the same.
use mathlib.Core.Path.{subst}
use pg_migrator.Config
use pg_migrator.Base.{
  sym, ℕ, ◌<◌, ◌≤◌, Text, Option, none, some, [], true, false, ◌≡◌, ◌≢◌, ◌↔◌, refl, arith,
}
use pg_migrator.Error.{ok, >>=-eq-ok}
use pg_migrator.Config.{EndpointConfig, MigrationConfig, validate}
use pg_migrator.Config.Validate.{IsSplitReady, IsOnlineReady}
use pg_migrator.CopySplit.Size.{parse_size}
use pg_migrator.CommandLine.{
  ModeArg, DumpScopeArg, Cli, online_options, split_size, config_from, into_config, migration_mode,
  scope_of,
}
use pg_migrator.CommandLine

-- what a command line for an online migration has
pub record IsOnlineUsable (cli : Cli) : Type 0 where
  pub slot_named : cli.slot_name ≢ []
  pub publication_named : cli.publication ≢ []
  pub protocol_positive : 0 < cli.protocol_version
  pub protocol_capped : cli.protocol_version ≤ 4
  pub subscription_named : cli.subscription_name ≢ []
  pub polls : 0 < cli.cutover_poll_secs
  pub polls_fast : 0 < cli.cutover_fast_poll_ms

-- what a command line with a threshold for large tables has
pub record IsSplitUsable (cli : Cli) (bytes : ℕ) : Type 0 where
  pub positive : 0 < bytes
  pub streams : 0 < cli.split_max_parts
  pub moves_data : cli.dump_scope ≢ CommandLine.schema_only
  pub all_schemas : cli.schemas ≡ []
  pub all_tables : cli.tables ≡ []
  pub no_schema_excluded : cli.exclude_schemas ≡ []
  pub no_table_excluded : cli.exclude_tables ≡ []
  pub fresh : cli.resume ≡ false
  pub sections_kept : cli.split_sections ≡ true
  pub sections_not_refused : cli.no_split_sections ≡ false

pub ok_injective : {A : Type 0} (a b : A) → ok a ≡ ok b → a ≡ b
ok_injective a b h = cc

some_injective : {A : Type 0} (a b : A) → some a ≡ some b → a ≡ b
some_injective a b h = cc

-- the two descriptions of an online migration and of a direct copy agree
pub online_sound : (cli : Cli) → IsOnlineReady (online_options cli) → IsOnlineUsable cli
unfolding online_options
online_sound cli o = record {
  slot_named = o.slot_named;
  publication_named = o.publication_named;
  protocol_positive = o.protocol_positive;
  protocol_capped = o.protocol_capped;
  subscription_named = o.subscription_named;
  polls = ground (arith, o.polls);
  polls_fast = o.polls_fast;
}

pub online_complete : (cli : Cli) → IsOnlineUsable cli → IsOnlineReady (online_options cli)
unfolding online_options
online_complete cli o = record {
  slot_named = o.slot_named;
  publication_named = o.publication_named;
  protocol_positive = o.protocol_positive;
  protocol_capped = o.protocol_capped;
  subscription_named = o.subscription_named;
  polls = ground (arith, o.polls);
  polls_fast = o.polls_fast;
}

pub is_mode_online :
    (mode : ModeArg) → (migration_mode mode ≡ Config.online) ↔ (mode ≡ CommandLine.online)
unfolding migration_mode
is_mode_online mode = ground arith

is_scope_schema :
    (scope : DumpScopeArg)
    → (scope_of scope ≡ Config.schema_only) ↔ (scope ≡ CommandLine.schema_only)
unfolding scope_of
is_scope_schema scope = ground arith

module _ (cli : Cli) (source target : EndpointConfig) (bytes : ℕ) where
  split_sound : IsSplitReady (config_from cli source target (some bytes)) → IsSplitUsable cli bytes
  unfolding config_from
  split_sound s = record {
    positive = ground (arith, s.threshold_positive);
    streams = s.streams;
    moves_data = λ h. s.moves_data ((is_scope_schema cli.dump_scope).1 h);
    all_schemas = s.all_schemas;
    all_tables = s.all_tables;
    no_schema_excluded = s.no_schema_excluded;
    no_table_excluded = s.no_table_excluded;
    fresh = s.fresh;
    sections_kept = ground (arith, s.in_sections);
    sections_not_refused = ground (arith, s.in_sections);
  }

  split_complete :
      IsSplitUsable cli bytes → IsSplitReady (config_from cli source target (some bytes))
  unfolding config_from
  split_complete s = record {
    threshold_positive = ground (arith, s.positive);
    streams = s.streams;
    moves_data = λ h. s.moves_data ((is_scope_schema cli.dump_scope).0 h);
    all_schemas = s.all_schemas;
    all_tables = s.all_tables;
    no_schema_excluded = s.no_schema_excluded;
    no_table_excluded = s.no_table_excluded;
    fresh = s.fresh;
    in_sections = ground (arith, s.sections_kept, s.sections_not_refused);
  }

module _ (cli : Cli) (source target : EndpointConfig) where
  -- the threshold that a valid configuration was made with
  pub size_sound :
      (given : Option Text) (threshold : Option ℕ)
      → split_size given ≡ ok threshold
      → (threshold ≢ none → IsSplitReady (config_from cli source target threshold))
      → (size : Text) → given ≡ some size
      → (bytes : ℕ) × (parse_size size ≡ ok bytes) × IsSplitUsable cli bytes
  unfolding split_size
  size_sound none threshold h ready size same = ground (arith, same)
  size_sound (some given) threshold h ready size same =
      let (bytes, parsed, made) = >>=-eq-ok (parse_size given) _ h in
      let at_bytes =
        subst (λ t. t ≢ none → IsSplitReady (config_from cli source target t))
          (sym (ok_injective (some bytes) threshold made)) ready in
      (
        bytes,
        subst (λ text. parse_size text ≡ ok bytes) (some_injective given size same) parsed,
        split_sound cli source target bytes (at_bytes (ground arith)),
      )

  pub size_complete :
      (given : Option Text)
      → ((size : Text)
          → given ≡ some size
          → (bytes : ℕ) × (parse_size size ≡ ok bytes) × IsSplitUsable cli bytes)
      → (threshold : Option ℕ) × (split_size given ≡ ok threshold)
        × (threshold ≢ none → IsSplitReady (config_from cli source target threshold))
  unfolding split_size
  size_complete none usable = (none, refl, λ h. absurd (h refl))
  size_complete (some size) usable =
      let (bytes, parsed, ready) = usable size refl in
      (some bytes, ground (arith, parsed), λ h. split_complete cli source target bytes ready)
