-- ===== src/CopySplit/Run.antt =====
-- `run_split_copy` (pg_dbmigrator/src/copy_split.rs): each table in turn is checked, truncated and
-- copied by its streams. What the servers answer for a table is a record of functions.
use pg_migrator.Base.{
  ℕ, ◌+◌, ◌%◌, ◌^◌, Text, Option, none, some, List, [], ◌∷◌, ◌++◌, Bool, true, false, if◌then◌else◌,
}
use pg_migrator.Error.{Result, ok, err, config, cancelled, MigrationError, target_table_occupied}
use pg_migrator.CopySplit.Pages.{SplitTable}

-- For a table: the cancellation token before it, opening and setting up the target's session,
-- whether the target's table holds rows, the result of truncating it, and how the wait for its
-- streams ends: `none` when the token fires first, else what `try_join_all` returns, the rows of
-- each part.
pub record Servers : Type 0 where
  pub is_cancelled : SplitTable → Bool
  pub open_target : SplitTable → Result (Unit {0})
  pub occupied : SplitTable → Result Bool
  pub truncate : SplitTable → Result (Unit {0})
  pub copy_parts : SplitTable → Option (Result (List ℕ))

-- What was done to the target.
pub data CopyAction : Type 0 where
  truncated copied : Text → CopyAction

pub record Copying {ℓ} (A : Type ℓ) : Type ℓ where
  pub actions : List CopyAction
  pub result : Result A

fail : {A : Type 0} → List CopyAction → MigrationError → Copying A
fail actions e = record { actions = actions; result = err e }

-- `counts.iter().sum()` on u64
unfoldable pub sum_rows : List ℕ → ℕ
sum_rows [] = 0
sum_rows (n ∷ ns) = (n + sum_rows ns) % 2 ^ 64

-- the streams of a table that has been truncated
stream : Servers → SplitTable → Copying ℕ
unfolding fail
stream s table = elim (s.copy_parts table) [
  | none ↦ fail (truncated table.table ∷ []) cancelled
  | some (err e) ↦ fail (truncated table.table ∷ []) e
  | some (ok counts) ↦ record {
    actions = truncated table.table ∷ copied table.table ∷ [];
    result = ok (sum_rows counts);
  }
]

-- truncating, then the streams
truncate_and_stream : Servers → SplitTable → Copying ℕ
unfolding fail stream
truncate_and_stream s table = elim (s.truncate table) [ err e ↦ fail [] e | ok _ ↦ stream s table ]

-- `if !allow_nonempty_target { .. }`
check_empty : Servers → Bool → SplitTable → Copying ℕ
unfolding fail truncate_and_stream
check_empty s true table = truncate_and_stream s table
check_empty s false table = elim (s.occupied table) [
  | err e ↦ fail [] e
  | ok true ↦ fail [] (config (target_table_occupied table.table))
  | ok false ↦ truncate_and_stream s table
]

-- one round of the loop over the plan
unfoldable pub copy_table : Servers → Bool → SplitTable → Copying ℕ
unfolding fail check_empty
copy_table s allow table =
    if s.is_cancelled table
    then fail [] cancelled
    else elim (s.open_target table) [ err e ↦ fail [] e | ok _ ↦ check_empty s allow table ]

-- the rest of the loop, if the round succeeded
unfoldable pub then_tables : Copying ℕ → Copying ℕ → Copying ℕ
then_tables first rest = elim first.result [
  | err e ↦ first
  | ok rows ↦ record {
    actions = first.actions ++ rest.actions;
    result = elim rest.result [ err e ↦ err e | ok total ↦ ok ((rows + total) % 2 ^ 64) ];
  }
]

unfoldable pub run_split_copy : Servers → Bool → List SplitTable → Copying ℕ
run_split_copy s allow [] = record { actions = []; result = ok 0 }
run_split_copy s allow (table ∷ plan) =
    then_tables (copy_table s allow table) (run_split_copy s allow plan)
