-- ===== src/CopySplit/Safety.antt =====
-- The direct copy never wipes rows that it was not allowed to (copy_split.rs).
use mathlib.Core.Path.{ap₂}
use pg_migrator.Base.{
  In-append, ◌∙◌, ℕ, List, [], ◌∷◌, ◌++◌, Bool, true, false, ◌≡◌, refl, ◌⊎◌, inl, inr, arith, In,
}
use pg_migrator.Error.{ok}
use pg_migrator.CopySplit.Pages.{SplitTable}
use pg_migrator.CopySplit.Run.{
  Servers, CopyAction, truncated, copied, Copying, copy_table, then_tables, run_split_copy,
}

-- A table of the plan that may be truncated: the overwrite was allowed, or the check found it
-- empty; and the run was not cancelled before it.
abbrev pub MayTruncate : Servers → Bool → SplitTable → Type 0
MayTruncate s allow table =
    (s.is_cancelled table ≡ false) × ((allow ≡ true) ⊎ (s.occupied table ≡ ok false))

abbrev pub SafeIn : Servers → Bool → List SplitTable → CopyAction → Type 0
SafeIn s allow plan (truncated name) =
    (table : SplitTable) × In table plan × (table.table ≡ name) × MayTruncate s allow table
SafeIn s allow plan (copied name) =
    (table : SplitTable) × In table plan × (table.table ≡ name) × MayTruncate s allow table

copy_table-safe :
    (s : Servers) (allow : Bool) (table : SplitTable) (a : CopyAction)
    → In a (copy_table s allow table).actions
    → ((a ≡ truncated table.table) ⊎ (a ≡ copied table.table)) × MayTruncate s allow table
unfolding copy_table
copy_table-safe s allow table a m = ground arith

then_tables-actions :
    (first rest : Copying ℕ) (a : CopyAction)
    → In a (then_tables first rest).actions
    → In a first.actions ⊎ In a rest.actions
unfolding then_tables
then_tables-actions first rest a m = ground (arith, In-append a first.actions rest.actions)

here-SafeIn :
    (s : Servers) (allow : Bool) (table : SplitTable) (plan : List SplitTable) (a : CopyAction)
    → ((a ≡ truncated table.table) ⊎ (a ≡ copied table.table)) × MayTruncate s allow table
    → SafeIn s allow (table ∷ plan) a
here-SafeIn s allow table plan (truncated name) h = (table, inl refl, ground arith, h.1)
here-SafeIn s allow table plan (copied name) h = (table, inl refl, ground arith, h.1)

there-SafeIn :
    (s : Servers) (allow : Bool) (table : SplitTable) (plan : List SplitTable) (a : CopyAction)
    → SafeIn s allow plan a
    → SafeIn s allow (table ∷ plan) a
there-SafeIn s allow table plan (truncated name) (t, m, e, h) = (t, inr m, e, h)
there-SafeIn s allow table plan (copied name) (t, m, e, h) = (t, inr m, e, h)

-- However the run ends, every table that it truncates or fills is one of the plan, was reached
-- before the run was cancelled, and was either found empty or allowed to be overwritten.
pub run_split_copy-safe :
    (s : Servers) (allow : Bool) (plan : List SplitTable) (a : CopyAction)
    → In a (run_split_copy s allow plan).actions
    → SafeIn s allow plan a
unfolding run_split_copy
run_split_copy-safe s allow [] a m = absurd m
run_split_copy-safe s allow (table ∷ plan) a m =
    elim (then_tables-actions (copy_table s allow table) (run_split_copy s allow plan) a m) [
      | inl n ↦ here-SafeIn s allow table plan a (copy_table-safe s allow table a n)
      | inr n ↦ there-SafeIn s allow table plan a (run_split_copy-safe s allow plan a n)
    ]

-- what a full run does
abbrev pub full_actions : List SplitTable → List CopyAction
full_actions [] = []
full_actions (table ∷ plan) = truncated table.table ∷ copied table.table ∷ full_actions plan

copy_table-ok :
    (s : Servers) (allow : Bool) (table : SplitTable) (rows : ℕ)
    → (copy_table s allow table).result ≡ ok rows
    → (copy_table s allow table).actions ≡ truncated table.table ∷ copied table.table ∷ []
unfolding copy_table
copy_table-ok s allow table rows h = ground arith

then_tables-ok :
    (first rest : Copying ℕ) (total : ℕ)
    → (then_tables first rest).result ≡ ok total
    → ((rows : ℕ) × (first.result ≡ ok rows))
      × ((n : ℕ) × (rest.result ≡ ok n))
      × ((then_tables first rest).actions ≡ first.actions ++ rest.actions)
unfolding then_tables
then_tables-ok first rest total h = ground arith

-- A run that succeeds has truncated and then filled every table of the plan, in order.
pub run_split_copy-full :
    (s : Servers) (allow : Bool) (plan : List SplitTable) (total : ℕ)
    → (run_split_copy s allow plan).result ≡ ok total
    → (run_split_copy s allow plan).actions ≡ full_actions plan
unfolding run_split_copy
run_split_copy-full s allow [] total h = refl
run_split_copy-full s allow (table ∷ plan) total h =
    let (first, rest, both) =
      then_tables-ok (copy_table s allow table) (run_split_copy s allow plan) total h in
    both
    ∙ ap₂ ◌++◌ (copy_table-ok s allow table first.0 first.1)
        (run_split_copy-full s allow plan rest.0 rest.1)
