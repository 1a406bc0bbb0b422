-- ===== src/CopySplit/Pages.antt =====
-- `TablePart`, `SplitTable`, `split_pages` and the plan of `plan_split_tables`
-- (pg_dbmigrator/src/copy_split.rs).
use pg_migrator.Base.{
  ℕ, zero, suc, ◌+◌, ◌/◌, max, ltb, leb, ◌==◌, Text, Option, none, some, List, [], ◌∷◌, Bool, false,
  ◌||◌, is_empty, ℤ, pos, negsuc, as_i64, if◌then◌else◌,
}

-- Pages start at 0, so a part's bounds are natural numbers; `end_page` is `none` for the last part.
pub record TablePart : Type 0 where
  pub table : Text
  pub start_page : ℕ
  pub end_page : Option ℕ

pub record SplitTable : Type 0 where
  pub table : Text
  pub bytes : ℤ
  pub columns : List Text
  pub parts : List TablePart

-- `pages.div_euclid(parts).max(1)` for pages above 0: by a negative divisor the quotient is not
-- above 0.
unfoldable pub step_for : ℕ → ℤ → ℕ
step_for pages (pos m) = max (pages / m) 1
step_for pages (negsuc m) = 1

-- `out.len() as i64 == parts - 1`
unfoldable pub last_index : ℕ → ℤ → Bool
last_index len (pos m) = len + 1 == m
last_index len (negsuc m) = false

-- The loop from `start_page` with `len` parts pushed: the parts that it pushes. Each round but the
-- last moves at least one page on; `none` when the fuel ends before the loop does.
unfoldable pub split_loop : Text → ℕ → ℤ → ℕ → ℕ → ℕ → ℕ → Option (List TablePart)
split_loop table pages parts step zero start len = none
split_loop table pages parts step (suc fuel) start len =
    let end = start + step in
    let is_last = leb pages end || last_index len parts in
    let rest = split_loop table pages parts step fuel end (len + 1) in
    if ltb start pages
    then (if is_last
        then some (record { table = table; start_page = start; end_page = none } ∷ [])
        else elim rest [
          | none ↦ none
          | some out ↦
              some (record { table = table; start_page = start; end_page = some end } ∷ out)
        ])
    else some []

unfoldable pub split_positive : Text → ℕ → ℕ → Option (List TablePart)
split_positive table pages max_parts =
    if pages == 0 || max_parts == 0
    then some []
    else split_loop table pages (as_i64 max_parts) (step_for pages (as_i64 max_parts)) pages 0 0

-- `split_pages`, with as much fuel as there are pages
unfoldable pub split_pages : Text → ℤ → ℕ → Option (List TablePart)
unfolding split_positive
split_pages table (negsuc n) max_parts = some []
split_pages table (pos pages) max_parts = split_positive table pages max_parts

-- One row that the planner's query returns.
pub record PlanRow : Type 0 where
  pub name : Text
  pub bytes : ℤ
  pub pages : ℤ
  pub cols : List Text

-- one round of the loop over the rows: a table without columns, or without parts, is left out
unfoldable pub plan_row : ℕ → PlanRow → Option (List SplitTable)
plan_row max_parts row =
    if is_empty row.cols then some [] else elim (split_pages row.name row.pages max_parts) [
      | none ↦ none
      | some [] ↦ some []
      | some (part ∷ parts) ↦ some (
          record { table = row.name; bytes = row.bytes; columns = row.cols; parts = part ∷ parts }
          ∷ [])
    ]
