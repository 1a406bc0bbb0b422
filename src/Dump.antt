-- ===== src/Dump.antt =====
-- pg_dbmigrator/src/dump.rs: the request and the command line of `pg_dump`. Running a command is
-- left to the callers' environments.
use pg_migrator.Base.{
  ℕ, Text, lit, to_text, Option, none, some, List, [], ◌∷◌, ◌++◌, map, Bool, true, false, ◌&&◌, ltb,
  is_empty, if◌then◌else◌,
}
use Prim.Native.String.{String}
use pg_migrator.Config.{DumpScope, all, schema_only, data_only, EndpointConfig}

pub data DumpFormat : Type 0 where
  custom plain directory : DumpFormat

abbrev pub is_directory : DumpFormat → Bool
is_directory directory = true
is_directory _ = false

-- `DumpFormat::flag`
unfoldable pub format_flag : DumpFormat → Text
format_flag custom = lit "c"
format_flag plain = lit "p"
format_flag directory = lit "d"

-- `DumpScope::pg_dump_flag` of config.rs
unfoldable pub pg_dump_flag : DumpScope → Option Text
pg_dump_flag all = none
pg_dump_flag schema_only = some (lit "--schema-only")
pg_dump_flag data_only = some (lit "--data-only")

pub record DumpRequest : Type 0 where
  pub source : EndpointConfig
  pub scope : DumpScope
  pub jobs : ℕ
  pub snapshot : Option Text
  pub schemas : List Text
  pub tables : List Text
  pub exclude_schemas : List Text
  pub exclude_tables : List Text
  pub exclude_table_data : List Text
  pub output_path : Text
  pub format : DumpFormat
  pub no_publications : Bool
  pub no_subscriptions : Bool
  pub compress : Option Text
  pub no_sync : Bool
  pub no_comments : Bool
  pub no_security_labels : Bool
  pub no_table_access_method : Bool

-- `for x in xs { args.push(format!("{flag}{x}")) }`
abbrev pub each : String → List Text → List Text
each flag xs = map (λ x. lit flag ++ x) xs

-- `if test { args.push(flag) }`
abbrev pub when : Bool → List Text → List Text
when test args = if test then args else []

-- `if let Some(x) = o { args.push(..) }`
abbrev pub given : Option Text → (Text → List Text) → List Text
given none f = []
given (some x) f = f x

unfoldable pub build_pg_dump_args : DumpRequest → List Text
unfolding format_flag pg_dump_flag
build_pg_dump_args req =
    lit "--no-password"
    ∷ lit "--verbose"
    ∷ lit "--format"
    ∷ format_flag req.format
    ∷ lit "--file"
    ∷ req.output_path
    ∷ lit "--host"
    ∷ req.source.host
    ∷ lit "--port"
    ∷ to_text req.source.port
    ∷ lit "--username"
    ∷ req.source.user
    ∷ lit "--dbname"
    ∷ req.source.database
    ∷ (given (pg_dump_flag req.scope) (λ flag. flag ∷ [])
        ++ (when (is_directory req.format && ltb 1 req.jobs) (lit "--jobs" ∷ to_text req.jobs ∷ [])
            ++ (given req.snapshot (λ snap. (lit "--snapshot=" ++ snap) ∷ [])
                ++ (each "--schema=" req.schemas
                    ++ (each "--table=" req.tables
                        ++ (each "--exclude-schema=" req.exclude_schemas
                            ++ (each "--exclude-table=" req.exclude_tables
                                ++ (each "--exclude-table-data=" req.exclude_table_data
                                    ++ (when req.no_publications (lit "--no-publications" ∷ [])
                                        ++ (when req.no_subscriptions
                                              (lit "--no-subscriptions" ∷ [])
                                            ++ (given req.compress
                                                  (λ spec. (lit "--compress=" ++ spec) ∷ [])
                                                ++ (when req.no_sync (lit "--no-sync" ∷ [])
                                                    ++ (when req.no_comments
                                                          (lit "--no-comments" ∷ [])
                                                        ++ (when req.no_security_labels
                                                            (lit "--no-security-labels" ∷ [])
                                                            ++ when req.no_table_access_method (
                                                            lit "--no-table-access-method"
                                                            ∷ [])))))))))))))))

-- `pgpassword_env`
unfoldable pub pgpassword_env : EndpointConfig → List (Text × Text)
pgpassword_env ep = if is_empty ep.password then [] else (lit "PGPASSWORD", ep.password) ∷ []

-- A program, its arguments and the additions to its environment.
pub record Invocation : Type 0 where
  pub program : Text
  pub args : List Text
  pub env : List (Text × Text)

-- what `run_pg_dump` asks of the runner
unfoldable pub dump_invocation : DumpRequest → Invocation
dump_invocation req = record {
  program = lit "pg_dump";
  args = build_pg_dump_args req;
  env = pgpassword_env req.source;
}
