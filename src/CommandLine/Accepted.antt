-- ===== src/CommandLine/Accepted.antt =====
-- Which command lines (pg_dbmigrator/src/bin/pg_dbmigrator/args.rs) stand for a configuration that
-- a run accepts.
use mathlib.Core.Path.{subst}
use pg_migrator.Base.{
  sym, ◌∙◌, ℕ, ◌<◌, Text, Option, none, some, [], true, ◌≡◌, ◌≢◌, ◌↔◌, refl, arith,
}
use pg_migrator.Error.{ok, >>=-eq-ok}
use pg_migrator.Config.{EndpointConfig, MigrationConfig, validate}
use pg_migrator.Config.Validate.{IsValid, IsSplitReady, validate_iff}
use pg_migrator.Config.Endpoint.{Parsed, parse, of_url, endpoint_of}
use pg_migrator.CopySplit.Size.{parse_size}
use pg_migrator.CommandLine.{
  ModeArg, DumpScopeArg, Cli, online_options, split_size, config_from, into_config, migration_mode,
  scope_of,
}
use pg_migrator.CommandLine
use pg_migrator.CommandLine.Usable.{
  IsOnlineUsable, IsSplitUsable, ok_injective, online_sound, online_complete, is_mode_online,
  size_sound, size_complete,
}

module _ (parse_url : Text → Parsed) where
  pub record IsUsable (cli : Cli) : Type 0 where
    pub source_given : cli.source ≢ []
    pub target_given : cli.target ≢ []
    pub source_parses : (e : EndpointConfig) × (parse parse_url cli.source ≡ ok e)
    pub target_parses : (e : EndpointConfig) × (parse parse_url cli.target ≡ ok e)
    pub has_jobs : 0 < cli.jobs
    pub resumable : cli.resume ≡ true → cli.dump_path ≢ none
    pub online_usable : cli.mode ≡ CommandLine.online → IsOnlineUsable cli
    pub split_usable :
        (size : Text)
        → cli.split_tables_larger_than ≡ some size
        → (bytes : ℕ) × (parse_size size ≡ ok bytes) × IsSplitUsable cli bytes

  kept_conn :
      (conn : Text) (e : EndpointConfig) → parse parse_url conn ≡ ok e → e.connection_string ≡ conn
  unfolding parse of_url endpoint_of
  kept_conn conn e h = ground (arith, h)

  IsValid-sound :
      (cli : Cli) (source target : EndpointConfig) (threshold : Option ℕ)
      → parse parse_url cli.source ≡ ok source
      → parse parse_url cli.target ≡ ok target
      → split_size cli.split_tables_larger_than ≡ ok threshold
      → IsValid (config_from cli source target threshold)
      → IsUsable cli
  unfolding config_from
  IsValid-sound cli source target threshold hs ht hn v = record {
    source_given = λ h. v.source_given (kept_conn cli.source source hs ∙ h);
    target_given = λ h. v.target_given (kept_conn cli.target target ht ∙ h);
    source_parses = (source, hs);
    target_parses = (target, ht);
    has_jobs = v.has_jobs;
    resumable = v.resumable;
    online_usable = λ h. online_sound cli (v.online_ready ((is_mode_online cli.mode).1 h));
    split_usable =
        size_sound cli source target cli.split_tables_larger_than threshold hn v.split_ready;
  }

  IsValid-complete :
      (cli : Cli)
      → (u : IsUsable cli) → (threshold : Option ℕ)
      → (threshold ≢ none
          → IsSplitReady (config_from cli u.source_parses.0 u.target_parses.0 threshold))
      → IsValid (config_from cli u.source_parses.0 u.target_parses.0 threshold)
  unfolding config_from
  IsValid-complete cli u threshold ready = record {
    source_given =
        λ h. u.source_given (sym (kept_conn cli.source u.source_parses.0 u.source_parses.1) ∙ h);
    target_given =
        λ h. u.target_given (sym (kept_conn cli.target u.target_parses.0 u.target_parses.1) ∙ h);
    has_jobs = u.has_jobs;
    resumable = u.resumable;
    online_ready = λ h. online_complete cli (u.online_usable ((is_mode_online cli.mode).0 h));
    split_ready = ready;
  }

  accepted_sound :
      (cli : Cli)
      → (c : MigrationConfig) × (into_config parse_url cli ≡ ok c) × (validate c ≡ ok tt)
      → IsUsable cli
  unfolding into_config
  accepted_sound cli (c, made, valid) =
      let (source, hs, rest₁) = >>=-eq-ok (parse parse_url cli.source) _ made in
      let (target, ht, rest₂) = >>=-eq-ok (parse parse_url cli.target) _ rest₁ in
      let (threshold, hn, rest₃) = >>=-eq-ok (split_size cli.split_tables_larger_than) _ rest₂ in
      IsValid-sound cli source target threshold hs ht hn
        (subst IsValid (sym (ok_injective _ c rest₃)) ((validate_iff c).0 valid))

  accepted_complete :
      (cli : Cli)
      → IsUsable cli
      → (c : MigrationConfig) × (into_config parse_url cli ≡ ok c) × (validate c ≡ ok tt)
  unfolding into_config
  accepted_complete cli u =
      let source = u.source_parses in
      let target = u.target_parses in
      let (threshold, hn, ready) =
        size_complete cli source.0 target.0 cli.split_tables_larger_than u.split_usable in
      (
        config_from cli source.0 target.0 threshold,
        rw (source.1, target.1, hn) refl,
        (validate_iff _).1 (IsValid-complete cli u threshold ready),
      )

  -- A command line stands for a configuration that a run accepts exactly when both addresses are
  -- given and parse, there is a job, a resumed run pins its archive, an online migration names its
  -- slot, publication and subscription, with a protocol version of 1 to 4 and positive poll
  -- intervals, and a threshold for large tables, if given, parses to a positive size and goes with
  -- at least one stream, a dump of data, no filter, no resumed run and a restore in sections.
  pub into_config_iff :
      (cli : Cli)
      → ((c : MigrationConfig) × (into_config parse_url cli ≡ ok c) × (validate c ≡ ok tt))
        ↔ IsUsable cli
  into_config_iff cli = (accepted_sound cli, accepted_complete cli)
