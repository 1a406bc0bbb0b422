-- ===== src/Verify/Counts.antt =====
-- `select_tables_to_verify` and `verify_row_counts` (pg_dbmigrator/src/verify.rs). The workers run
-- at the same time in the code; here they are listed in order, and of several errors the first
-- in that order is returned.
use pg_migrator.Base.{
  ℕ, zero, suc, ◌+◌, ◌-◌, ◌/◌, max, min, Text, lit, text_eq, mem_text, rsplit_once, filter,
  is_empty, length, take, ℤ, negsuc, Option, none, some, List, [], ◌∷◌, ◌++◌, map, Bool, false,
  ◌&&◌, ◌||◌, if◌then◌else◌,
}
use pg_migrator.Error.{Result, ok, err, cancelled, postgres, MigrationError, ◌>>=◌, ◌>>◌}
use pg_migrator.Config.{MigrationConfig}
use pg_migrator.Publication.{filter_tables_by_exclusions}
use pg_migrator.Verify.Report.{TableCount, VerifyReport}

-- the schema by which a candidate is selected: what stands before the last dot, or nothing
unfoldable pub selected_schema : Text → Text
selected_schema qt = elim (rsplit_once b'.' qt) [ none ↦ [] | some (schema, table) ↦ schema ]

unfoldable pub select_tables_to_verify :
    List Text → List Text → List Text → List Text → List Text → List Text
select_tables_to_verify candidates schemas tables exclude_tables exclude_schemas =
    filter_tables_by_exclusions
      (filter
        (λ qt.
          (is_empty schemas && is_empty tables)
          || mem_text (selected_schema qt) schemas
          || mem_text qt tables)
        candidates)
      exclude_tables exclude_schemas

-- What the two servers answer: `none` where the cancellation token fires first. `count` is asked
-- with the query and gives the source's and the target's count.
pub record Counters : Type 0 where
  pub connect : Option (Result (Unit {0}))
  pub list_tables : Option (Result (List (Text × Text)))
  pub connect_pair : List Text → Option (Result (Unit {0}))
  pub is_cancelled : Text → Bool
  pub quote_ident : Text → Result Text
  pub count : Text → Option (Result ℤ × Result ℤ)

-- `select! { _ = cancel.cancelled() => return Err(Cancelled), res = .. => res? }`
abbrev pub raced {ℓ} : {A : Type ℓ} → Option (Result A) → Result A
raced none = err cancelled
raced (some r) = r

-- `UNDEFINED_TABLE` and `UNDEFINED_SCHEMA`
unfoldable pub is_missing : MigrationError → Bool
is_missing (postgres (some code)) = text_eq code (lit "42P01") || text_eq code (lit "3F000")
is_missing _ = false

-- the target's count, -1 when the table is missing there
unfoldable pub target_count : Result ℤ → Result ℤ
target_count (ok n) = ok n
target_count (err e) = if is_missing e then ok (negsuc 0) else err e

-- `xs[n..]`
abbrev pub skip {ℓ} : {A : Type ℓ} → ℕ → List A → List A
skip zero xs = xs
skip (suc n) [] = []
skip (suc n) (x ∷ xs) = skip n xs

-- `list.chunks(size)`, with as much fuel as the list is long
unfoldable pub chunks {ℓ} : {A : Type ℓ} → ℕ → ℕ → List A → List (List A)
chunks zero size xs = []
chunks (suc fuel) size [] = []
chunks (suc fuel) size (x ∷ xs) = take size (x ∷ xs) ∷ chunks fuel size (skip size (x ∷ xs))

-- the size of a worker's slice: `len.div_ceil(worker_count).max(1)`
unfoldable pub chunk_size : ℕ → ℕ → ℕ
chunk_size jobs len =
    let worker_count = min (max jobs 1) (max len 1) in
    max ((len + (worker_count - 1)) / worker_count) 1

module _ (c : Counters) where
  -- the two results of a count query
  unfoldable pub compared : Text → Text → Option (Result ℤ × Result ℤ) → Result (List TableCount)
  compared schema table none = err cancelled
  compared schema table (some (source, target)) = do
    s ← source
    t ← target_count target
    ok (record { schema = schema; table = table; source = s; target = t } ∷ [])

  unfoldable pub count_split : Option (Text × Text) → Result (List TableCount)
  count_split none = ok []
  count_split (some (schema, table)) = do
    s ← c.quote_ident schema
    t ← c.quote_ident table
    compared schema table (c.count (lit "SELECT count(*) FROM " ++ (s ++ (lit "." ++ t))))

  -- one round of a worker's loop: a name without a dot is left out
  unfoldable pub count_table : Text → Result (List TableCount)
  count_table qt = if c.is_cancelled qt then err cancelled else count_split (rsplit_once b'.' qt)

  unfoldable pub count_all : List Text → Result (List TableCount)
  count_all [] = ok []
  count_all (qt ∷ slice) = do row ← count_table qt; rows ← count_all slice; ok (row ++ rows)

  -- a worker: its own pair of connections, then its slice
  unfoldable pub worker : List Text → Result (List TableCount)
  worker slice = raced (c.connect_pair slice) >> count_all slice

  -- `try_join_all`, flattened
  unfoldable pub join_workers : List (List Text) → Result (List TableCount)
  join_workers [] = ok []
  join_workers (slice ∷ slices) = do
    rows ← worker slice
    rest ← join_workers slices
    ok (rows ++ rest)

  unfoldable pub qualified : List (Text × Text) → List Text
  qualified rows = map (λ (row : Text × Text). row.0 ++ (lit "." ++ row.1)) rows

  -- the tables that are counted
  unfoldable pub selected : MigrationConfig → List (Text × Text) → List Text
  selected cfg rows =
      select_tables_to_verify (qualified rows) cfg.schemas cfg.tables cfg.exclude_tables
        cfg.exclude_schemas

  unfoldable pub count_in_workers : ℕ → List Text → Result (List TableCount)
  count_in_workers jobs tables =
      join_workers (chunks (length tables) (chunk_size jobs (length tables)) tables)

  unfoldable pub verify_row_counts : MigrationConfig → Result VerifyReport
  verify_row_counts cfg = do
    raced c.connect
    rows ← raced c.list_tables
    out ← count_in_workers cfg.jobs (selected cfg rows)
    ok (record { rows = out })
