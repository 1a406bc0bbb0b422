-- ===== src/Publication.antt =====
-- The publication and the exclusion lists (pg_dbmigrator/src/preflight.rs):
-- `quote_qualified_name`, `build_create_publication_sql`, `filter_tables_by_exclusions` and
-- `ensure_publication_exists`. `pg_walstream::quote_ident` and the source are parameters.
pub mod Coverage
pub mod Schema
use pg_migrator.Error.{publication_missing, refuse_if}
use pg_migrator.Base.{
  Text, lit, text_eq, mem_text, split_once, join, filter, is_empty, Option, none, some, List, [],
  ◌∷◌, ◌++◌, Bool, true, false, not, ◌&&◌, ◌||◌, if◌then◌else◌,
}
use pg_migrator.Error.{
  publication_missing, Result, ok, err, config, ◌>>=◌, ◌>>◌, refuse_if, qualified_name_empty_part,
}

-- `t.split('.').next()`: all that stands before the first dot
unfoldable pub schema_of : Text → Text
schema_of t = elim (split_once b'.' t) [ none ↦ t | some (schema, rest) ↦ schema ]

-- the closure that `filter_tables_by_exclusions` keeps a table by
unfoldable pub keeps_table : List Text → List Text → Text → Bool
keeps_table exclude_tables exclude_schemas t =
    not (mem_text t exclude_tables) && not (mem_text (schema_of t) exclude_schemas)

unfoldable pub filter_tables_by_exclusions : List Text → List Text → List Text → List Text
filter_tables_by_exclusions tables exclude_tables exclude_schemas =
    filter (keeps_table exclude_tables exclude_schemas) tables

-- the two lists that the new publication is made from, where `fetched` are the source's tables
-- after the exclusions
unfoldable pub effective_scope :
    List Text → List Text → List Text → List Text → List Text → List Text × List Text
effective_scope tables schemas exclude_tables exclude_schemas fetched =
    let has_exclusions = not (is_empty exclude_tables) || not (is_empty exclude_schemas) in
    let has_includes = not (is_empty tables) || not (is_empty schemas) in
    if has_exclusions && not has_includes
    then (fetched, [])
    else if has_exclusions && has_includes
    then (
      filter_tables_by_exclusions tables exclude_tables exclude_schemas,
      filter (λ s. not (mem_text s exclude_schemas)) schemas,
    )
    else (tables, schemas)

-- What the function asks of the source and of pg_walstream; `tables` are all tables, qualified.
pub record Source : Type 0 where
  pub quote_ident : Text → Result Text
  pub connect : Result (Unit {0})
  pub exists : Result Bool
  pub tables : Result (List Text)
  pub run : Text → Result (Unit {0})

-- the parts of `name.splitn(2, '.')`
unfoldable pub name_parts : Text → List Text
name_parts name = elim (split_once b'.' name) [ none ↦ name ∷ [] | some (a, b) ↦ a ∷ b ∷ [] ]

module _ (src : Source) where
  unfoldable pub quote_all : (Text → Result Text) → List Text → Result (List Text)
  quote_all quote [] = ok []
  quote_all quote (s ∷ ss) = do q ← quote s; qs ← quote_all quote ss; ok (q ∷ qs)

  -- `parts.iter().any(|p| p.is_empty())`
  abbrev has_empty : List Text → Bool
  has_empty [] = false
  has_empty (p ∷ ps) = is_empty p || has_empty ps

  unfoldable pub quote_qualified_name : Text → Result Text
  quote_qualified_name name = do
    refuse_if (has_empty (name_parts name)) (qualified_name_empty_part name)
    quoted ← quote_all src.quote_ident (name_parts name)
    ok (join (lit ".") quoted)

  -- one part of the scope, if its list has anything
  unfoldable pub scope_part : Text → (Text → Result Text) → List Text → Result (List Text)
  scope_part keyword quote [] = ok []
  scope_part keyword quote (x ∷ xs) = do
    quoted ← quote_all quote (x ∷ xs)
    ok ((keyword ++ join (lit ", ") quoted) ∷ [])

  unfoldable pub scope_sql : List Text → List Text → Result Text
  scope_sql tables schemas =
      if is_empty tables && is_empty schemas then ok (lit "FOR ALL TABLES") else do
        table_part ← scope_part (lit "TABLE ") quote_qualified_name tables
        schema_part ← scope_part (lit "TABLES IN SCHEMA ") src.quote_ident schemas
        ok (lit "FOR " ++ join (lit ", ") (table_part ++ schema_part))

  unfoldable pub build_create_publication_sql : Text → List Text → List Text → Result Text
  build_create_publication_sql publication tables schemas = do
    ident ← src.quote_ident publication
    scope ← scope_sql tables schemas
    ok (lit "CREATE PUBLICATION " ++ (ident ++ (lit " " ++ scope)))

  -- `fetch_published_tables`
  unfoldable pub fetch_published_tables : List Text → List Text → Result (List Text)
  fetch_published_tables exclude_tables exclude_schemas = do
    all ← src.tables
    ok (filter_tables_by_exclusions all exclude_tables exclude_schemas)

  -- the tables are fetched only when there are exclusions and no includes
  unfoldable pub fetch_if_needed :
      List Text → List Text → List Text → List Text → Result (List Text)
  fetch_if_needed tables schemas exclude_tables exclude_schemas =
      if (not (is_empty exclude_tables) || not (is_empty exclude_schemas))
        && (is_empty tables && is_empty schemas)
      then fetch_published_tables exclude_tables exclude_schemas
      else ok []

  -- the publication is missing
  unfoldable pub create_publication :
      Text → List Text → List Text → List Text → List Text → Result Bool
  create_publication publication tables schemas exclude_tables exclude_schemas = do
    fetched ← fetch_if_needed tables schemas exclude_tables exclude_schemas
    let (effective_tables, effective_schemas) =
        effective_scope tables schemas exclude_tables exclude_schemas fetched
    sql ← build_create_publication_sql publication effective_tables effective_schemas
    src.run sql
    ok true

  unfoldable pub ensure_publication_exists :
      Text → List Text → List Text → List Text → List Text → Result Bool
  ensure_publication_exists publication tables schemas exclude_tables exclude_schemas = do
    src.connect
    exists ← src.exists
    if exists
        then ok false
        else create_publication publication tables schemas exclude_tables exclude_schemas

-- `verify_publication_exists`
unfoldable pub verify_publication_exists : Source → Text → Result (Unit {0})
verify_publication_exists s publication = do
  s.connect
  exists ← s.exists
  refuse_if (not exists) (publication_missing publication)
