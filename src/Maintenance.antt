-- ===== src/Maintenance.antt =====
-- pg_dbmigrator/src/analyze.rs: VACUUM ANALYZE on the source and ANALYZE on the target.
pub mod Effects
use pg_migrator.Base.{Text, lit, List, [], ◌∷◌, ◌++◌, Bool, is_empty, if◌then◌else◌}
use pg_migrator.Error.{Result, ok, err, ◌>>=◌}

-- What the maintenance asks: connecting to a server, quoting an identifier, the relations of a
-- schema by a query, executing a statement.
pub record Maintenance : Type 0 where
  pub connect : Text → Result (Unit {0})
  pub quote_ident : Text → Result Text
  pub list_relations : Text → Text → Result (List Text)
  pub execute : Text → Result (Unit {0})

-- the statements that were executed, and what is returned
pub record Maintained : Type 0 where
  pub statements : List Text
  pub result : Result (Unit {0})

unfoldable pub list_analyzable_sql : Text
list_analyzable_sql =
    lit
      "SELECT c.relname::text FROM pg_class c JOIN pg_namespace n ON n.oid = c.relnamespace WHERE c.relkind IN ('r', 'p', 'm') AND n.nspname = $1 AND NOT c.relispartition"

unfoldable pub list_vacuumable_sql : Text
list_vacuumable_sql =
    lit
      "SELECT c.relname::text FROM pg_class c JOIN pg_namespace n ON n.oid = c.relnamespace WHERE c.relkind IN ('r', 'p') AND n.nspname = $1 AND NOT c.relispartition"

unfoldable pub build_analyze_sql : Bool → Text
build_analyze_sql verbose = lit "ANALYZE" ++ ((if verbose then lit " VERBOSE" else []) ++ lit ";")

unfoldable pub build_vacuum_analyze_sql : Bool → Text
build_vacuum_analyze_sql verbose =
    lit "VACUUM" ++ ((if verbose then lit " (VERBOSE, ANALYZE)" else lit " ANALYZE") ++ lit ";")

module _ (c : Maintenance) where
  unfoldable pub build_analyze_table_sql : Text → Text → Bool → Result Text
  build_analyze_table_sql schema table verbose = do
    schema_q ← c.quote_ident schema
    table_q ← c.quote_ident table
    ok (
        lit "ANALYZE"
        ++ ((if verbose then lit " VERBOSE" else [])
            ++ (lit " " ++ (schema_q ++ (lit "." ++ (table_q ++ lit ";"))))))

  unfoldable pub build_vacuum_analyze_table_sql : Text → Text → Bool → Result Text
  build_vacuum_analyze_table_sql schema table verbose = do
    schema_q ← c.quote_ident schema
    table_q ← c.quote_ident table
    ok (
        lit "VACUUM"
        ++ ((if verbose then lit " (VERBOSE, ANALYZE)" else lit " ANALYZE")
            ++ (lit " " ++ (schema_q ++ (lit "." ++ (table_q ++ lit ";"))))))

  -- one round of the loop over the relations: one that cannot be named is skipped
  abbrev pub add_sql : Result Text → List Text → List Text
  add_sql (ok sql) rest = sql ∷ rest
  add_sql (err e) rest = rest

  -- the loop over the relations, in which a failure is only logged
  unfoldable pub maintain_tables :
      (Text → Text → Bool → Result Text) → Text → Bool → List Text → List Text
  maintain_tables build_sql schema verbose [] = []
  maintain_tables build_sql schema verbose (table ∷ tables) =
      add_sql (build_sql schema table verbose) (maintain_tables build_sql schema verbose tables)

  -- a listing that fails is only logged
  abbrev pub of_listing :
      (Text → Text → Bool → Result Text) → Text → Bool → Result (List Text) → List Text
  of_listing build_sql schema verbose (ok tables) = maintain_tables build_sql schema verbose tables
  of_listing build_sql schema verbose (err e) = []

  unfoldable pub run_per_table : Text → Bool → (Text → Text → Bool → Result Text) → Text → List Text
  run_per_table schema verbose build_sql list_sql =
      of_listing build_sql schema verbose (c.list_relations schema list_sql)

  unfoldable pub analyze_schema : Text → Bool → List Text
  analyze_schema schema verbose =
      run_per_table schema verbose build_analyze_table_sql list_analyzable_sql

  unfoldable pub vacuum_schema : Text → Bool → List Text
  vacuum_schema schema verbose =
      run_per_table schema verbose build_vacuum_analyze_table_sql list_vacuumable_sql

  -- the loop over the schemas
  unfoldable pub each_schema : (Text → List Text) → List Text → List Text
  each_schema maintain [] = []
  each_schema maintain (schema ∷ schemas) = maintain schema ++ each_schema maintain schemas

  -- the whole database by one statement, or the schemas one by one
  unfoldable pub maintain : Text → (Text → List Text) → List Text → Maintained
  maintain whole_sql one_schema schemas =
      if is_empty schemas
      then record { statements = whole_sql ∷ []; result = c.execute whole_sql }
      else record { statements = each_schema one_schema schemas; result = ok tt }

  abbrev connected : Result (Unit {0}) → Maintained → Maintained
  connected (err e) rest = record { statements = []; result = err e }
  connected (ok _) rest = rest

  unfoldable pub run_target_analyze : Text → List Text → Bool → Maintained
  run_target_analyze target_conn schemas verbose =
      connected (c.connect target_conn)
        (maintain (build_analyze_sql verbose) (λ schema. analyze_schema schema verbose) schemas)

  unfoldable pub run_source_vacuum : Text → List Text → Bool → Maintained
  run_source_vacuum source_conn schemas verbose =
      connected (c.connect source_conn) (
        maintain (build_vacuum_analyze_sql verbose) (λ schema. vacuum_schema schema verbose)
          schemas)
