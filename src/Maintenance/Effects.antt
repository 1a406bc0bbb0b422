-- ===== src/Maintenance/Effects.antt =====
-- What the maintenance of pg_dbmigrator/src/analyze.rs executes and when it fails.
use pg_migrator.Base.{In-append}
use mathlib.Core.Path.{ap, subst}
use pg_migrator.Base.{
  In-append, sym, Text, List, [], ◌∷◌, ◌++◌, Bool, In, inl, inr, ◌⊎◌, ◌≡◌, ◌≢◌, ◌↔◌, refl, arith,
}
use pg_migrator.Error.{Result, ok, err}
use pg_migrator.Maintenance.{
  connected, of_listing, add_sql, Maintenance, Maintained, build_analyze_sql,
  build_vacuum_analyze_sql, build_analyze_table_sql, build_vacuum_analyze_table_sql,
  list_analyzable_sql, list_vacuumable_sql, maintain_tables, run_per_table, analyze_schema,
  vacuum_schema, each_schema, maintain, run_target_analyze, run_source_vacuum,
}

-- a statement for a relation that the query finds in one of the schemas
unfoldable pub Wanted :
    Maintenance → (Text → Text → Bool → Result Text) → Text → List Text → Bool → Text → Type 0
Wanted c build_sql list_sql schemas verbose sql =
    (schema : Text) × (tables : List Text) × (table : Text) × In schema schemas
    × (c.list_relations schema list_sql ≡ ok tables)
    × In table tables
    × (build_sql schema table verbose ≡ ok sql)

In-left : {A : Type 0} (a : A) (xs ys : List A) → In a xs → In a (xs ++ ys)
In-left a [] ys i = elim i [ ]
In-left a (x ∷ xs) ys (inl same) = inl same
In-left a (x ∷ xs) ys (inr i) = inr (In-left a xs ys i)

In-right : {A : Type 0} (a : A) (xs ys : List A) → In a ys → In a (xs ++ ys)
In-right a [] ys i = i
In-right a (x ∷ xs) ys i = inr (In-right a xs ys i)

added :
    (c : Maintenance) (r : Result Text) (rest : List Text) (sql : Text)
    → In sql (add_sql c r rest) ↔ ((r ≡ ok sql) ⊎ In sql rest)
added c (ok made) rest sql = (
  (λ i. elim i [ inl e ↦ inl (ap ok (sym e)) | inr k ↦ inr k ]),
  (λ i. elim i [ inl e ↦ inl cc | inr k ↦ inr k ]),
)
added c (err e) rest sql = ground arith

module _ (c : Maintenance) (build_sql : Text → Text → Bool → Result Text) (verbose : Bool) where
  built_for :
      (schema : Text) (tables : List Text) (sql : Text)
      → In sql (maintain_tables c build_sql schema verbose tables)
      → (table : Text) × In table tables × (build_sql schema table verbose ≡ ok sql)
  unfolding maintain_tables
  built_for schema [] sql i = elim i [ ]
  built_for schema (table ∷ tables) sql i =
      elim ((added c (build_sql schema table verbose) _ sql).0 i) [
        | inl e ↦ (table, inl refl, e)
        | inr later ↦ let (x, k, e) = built_for schema tables sql later in (x, inr k, e)
      ]

  built-In :
      (schema : Text) (tables : List Text) (sql table : Text)
      → In table tables
      → build_sql schema table verbose ≡ ok sql
      → In sql (maintain_tables c build_sql schema verbose tables)
  unfolding maintain_tables
  built-In schema [] sql table i e = elim i [ ]
  built-In schema (x ∷ tables) sql table (inl same) e =
      (added c (build_sql schema x verbose) _ sql).1
        (inl (subst (λ t. build_sql schema t verbose ≡ ok sql) same e))
  built-In schema (x ∷ tables) sql table (inr i) e =
      (added c (build_sql schema x verbose) _ sql).1 (inr (built-In schema tables sql table i e))

  listed_for :
      (list_sql schema sql : Text) (r : Result (List Text))
      → c.list_relations schema list_sql ≡ r
      → In sql (of_listing c build_sql schema verbose r)
      → (tables : List Text) × (table : Text) × (c.list_relations schema list_sql ≡ ok tables)
        × In table tables
        × (build_sql schema table verbose ≡ ok sql)
  listed_for list_sql schema sql (err e) same i = elim i [ ]
  listed_for list_sql schema sql (ok tables) same i =
      let (table, k, e) = built_for schema tables sql i in (tables, table, same, k, e)

  -- the loop over the schemas, for one kind of statement
  module _ (list_sql : Text) where
    schemas_for :
        (schemas : List Text) (sql : Text)
        → In sql
            (each_schema c (λ schema. run_per_table c schema verbose build_sql list_sql) schemas)
        → Wanted c build_sql list_sql schemas verbose sql
    unfolding each_schema run_per_table Wanted
    schemas_for [] sql i = elim i [ ]
    schemas_for (schema ∷ schemas) sql i =
        elim (In-append sql (run_per_table c schema verbose build_sql list_sql) _ i) [
          | inl here ↦
              let (tables, table, listed, k, e) = listed_for list_sql schema sql _ refl here in
              (schema, tables, table, inl refl, listed, k, e)
          | inr later ↦
              let (found, tables, table, k, listed, at, e) = schemas_for schemas sql later in
              (found, tables, table, inr k, listed, at, e)
        ]

    schemas-In :
        (schemas : List Text) (sql schema : Text) (tables : List Text) (table : Text)
        → In schema schemas
        → c.list_relations schema list_sql ≡ ok tables
        → In table tables
        → build_sql schema table verbose ≡ ok sql
        → In sql
            (each_schema c (λ schema. run_per_table c schema verbose build_sql list_sql) schemas)
    unfolding each_schema run_per_table
    schemas-In [] sql schema tables table i listed k e = elim i [ ]
    schemas-In (x ∷ schemas) sql schema tables table (inl same) listed k e =
        In-left sql (run_per_table c x verbose build_sql list_sql) _ (
          subst (λ s. In sql (run_per_table c s verbose build_sql list_sql)) same
            (rw (listed) (built-In schema tables sql table k e)))
    schemas-In (x ∷ schemas) sql schema tables table (inr i) listed k e =
        In-right sql (run_per_table c x verbose build_sql list_sql) _
          (schemas-In schemas sql schema tables table i listed k e)

-- What a run of maintenance does: it fails exactly where the connection does, or without schemas
-- the statement for the whole database; with schemas it executes a statement for each relation
-- that is listed for one of them and that can be named, and no other.
pub record DoesMaintenance (c : Maintenance) (conn : Text) (schemas : List Text) (verbose : Bool)
    (whole_sql : Text) (build_sql : Text → Text → Bool → Result Text) (list_sql : Text)
    (done : Maintained) : Type 0 where
  pub succeeds :
      (done.result ≡ ok tt)
      ↔ ((c.connect conn ≡ ok tt) × (schemas ≡ [] → c.execute whole_sql ≡ ok tt))
  pub whole : c.connect conn ≡ ok tt → schemas ≡ [] → done.statements ≡ whole_sql ∷ []
  pub each :
      c.connect conn ≡ ok tt
      → schemas ≢ []
      → (sql : Text) → In sql done.statements ↔ Wanted c build_sql list_sql schemas verbose sql
  pub offline : c.connect conn ≢ ok tt → done.statements ≡ []

module _ (c : Maintenance) (build_sql : Text → Text → Bool → Result Text)
    (list_sql whole_sql : Text) (verbose : Bool) (conn : Text) where
  connection :
      (r : Result (Unit {0})) (schemas : List Text)
      → c.connect conn ≡ r
      → DoesMaintenance c conn schemas verbose whole_sql build_sql list_sql (
          connected c r (
            maintain c whole_sql
              (λ schema. run_per_table c schema verbose build_sql list_sql)
              schemas))
  unfolding maintain Wanted
  connection (err e) schemas h = record {
    succeeds = ground (arith, h);
    whole = λ up none_given. ground (arith, h, up);
    each = λ up given. ground (arith, h, up);
    offline = λ down. refl;
  }
  connection (ok _) [] h = record {
    succeeds = ground (arith, h);
    whole = λ up none_given. refl;
    each = λ up given. absurd (given refl);
    offline = λ down. absurd (down h);
  }
  connection (ok _) (schema ∷ schemas) h = record {
    succeeds = ground (arith, h);
    whole = λ up none_given. ground (arith, none_given);
    each = λ up given sql. (
      schemas_for c build_sql verbose list_sql (schema ∷ schemas) sql,
      λ (found, tables, table, i, listed, k, e).
          schemas-In c build_sql verbose list_sql (schema ∷ schemas) sql found tables table i listed
            k e,
    );
    offline = λ down. absurd (down h);
  }

-- The maintenance before the dump and after the restore: each fails exactly where its connection
-- does or, where no schema is given, the one statement for the whole database, which is then all
-- that it executes; where schemas are given, it executes a statement for each relation that is
-- listed for one of them and whose name can be quoted, and no other, and nothing that fails on the
-- way, a listing, a name or a statement, stops it.
pub maintenance_lem :
    (c : Maintenance) (conn : Text) (schemas : List Text) (verbose : Bool)
    → DoesMaintenance c conn schemas verbose
        (build_vacuum_analyze_sql verbose)
        (build_vacuum_analyze_table_sql c)
        list_vacuumable_sql
        (run_source_vacuum c conn schemas verbose)
      × DoesMaintenance c conn schemas verbose
          (build_analyze_sql verbose)
          (build_analyze_table_sql c)
          list_analyzable_sql
          (run_target_analyze c conn schemas verbose)
unfolding run_source_vacuum run_target_analyze vacuum_schema analyze_schema
maintenance_lem c conn schemas verbose = (
  connection c (build_vacuum_analyze_table_sql c) list_vacuumable_sql
      (build_vacuum_analyze_sql verbose) verbose conn (c.connect conn) schemas refl,
  connection c (build_analyze_table_sql c) list_analyzable_sql (build_analyze_sql verbose) verbose
      conn (c.connect conn) schemas refl,
)
