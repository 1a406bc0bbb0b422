-- ===== src/Orchestrator/Fits.antt =====
-- The dump leaves out the data of the split tables, and the direct copy fills them: entries that
-- fit one choice of split tables, in the traces of `Migrator` (pg_dbmigrator/src/orchestrator.rs).
use pg_migrator.Restore.Command.{post_data}
use mathlib.Core.Path.{subst}
use pg_migrator.Base.{
  ◌++◌, sym, Text, Option, none, some, [], ◌∷◌, Bool, true, false, inl, inr, In, ◌≡◌, arith,
}
use pg_migrator.Restore.Command.{post_data}
use pg_migrator.Orchestrator.Trace.{pg_dump, pg_restore, split_copy, Entry, called, Trace}
use pg_migrator.Orchestrator.Setup.{Migrator, SplitContext, split_names}
use pg_migrator.Orchestrator.Calm.{is_calm, Closed}

-- a dump reads the snapshot that the direct copy reads
unfoldable pub Reads : Option SplitContext → Option Text → Type 0
Reads none snapshot = Unit
Reads (some s) snapshot = snapshot ≡ some s.snapshot_id

-- the direct copy has filled the split tables
unfoldable pub Copied : Option SplitContext → Trace → Type 0
Copied none tr = Unit
Copied (some s) tr = (fresh : Bool) × In (called (split_copy s.snapshot_id s.plan fresh) true) tr

-- A dump and a direct copy for the split tables of `split`, the last section of the archive after
-- the copy, and the archive as a whole only where the configuration asks for no sections.
unfoldable pub Fitting : Migrator → Option SplitContext → Entry → Trace → Type 0
Fitting m split (called (pg_dump req) b) past =
    (req.exclude_table_data ≡ split_names split) × Reads split req.snapshot
Fitting m split (called (split_copy id plan fresh) b) past =
    split ≡ some (record { plan = plan; snapshot_id = id })
Fitting m split (called (pg_restore req) b) past =
    (req.section ≡ some post_data → Copied split past)
    × (req.section ≡ none → m.config.split_sections ≡ false)
Fitting m split e past = Unit

unfoldable pub Fits : Migrator → Option SplitContext → Trace → Type 0
Fits m split [] = Unit
Fits m split (e ∷ past) = Fitting m split e past × Fits m split past

-- neither dump, restore nor direct copy yet
unfoldable pub Unsplit : Migrator → Trace → Type 0
Unsplit m tr = (split : Option SplitContext) → Fits m split tr

module _ (m : Migrator) (split : Option SplitContext) where
  calm-Fitting : (e : Entry) (past : Trace) → is_calm e ≡ true → Fitting m split e past
  unfolding Fitting
  calm-Fitting (called (pg_dump req) b) past h = ground (arith, h)
  calm-Fitting (called (pg_restore req) b) past h = ground (arith, h)
  calm-Fitting (called (split_copy id plan fresh) b) past h = ground (arith, h)
  calm-Fitting e past h = tt

  pub Fits-Closed : Closed (Fits m split)
  unfolding Fits
  Fits-Closed e tr h k = (calm-Fitting e tr h, k)

  pub Fitting-at :
      (newer : Trace) (e : Entry) (past : Trace)
      → Fits m split (newer ++ e ∷ past)
      → Fitting m split e past
  unfolding Fits
  Fitting-at [] e past k = k.0
  Fitting-at (x ∷ newer) e past k = Fitting-at newer e past k.1

  -- of an entry, and of what was before it
  pub Fitting-In :
      (e : Entry) (tr : Trace) → Fits m split tr → In e tr → (past : Trace) × Fitting m split e past
  unfolding Fits
  Fitting-In e [] k i = elim i [ ]
  Fitting-In e (x ∷ past) k (inl same) =
      (past, subst (λ entry. Fitting m split entry past) (sym same) k.0)
  Fitting-In e (x ∷ past) k (inr i) = Fitting-In e past k.1 i

pub Unsplit-Closed : (m : Migrator) → Closed (Unsplit m)
unfolding Unsplit
Unsplit-Closed m e tr h k split = Fits-Closed m split e tr h (k split)

-- the copy done, in a trace that fits
unfoldable pub Filled : Migrator → Option SplitContext → Trace → Type 0
Filled m split tr = Fits m split tr × Copied split tr

pub Copied-later :
    (split : Option SplitContext) (e : Entry) (tr : Trace) → Copied split tr → Copied split (e ∷ tr)
unfolding Copied
Copied-later none e tr k = tt
Copied-later (some s) e tr k = (k.0, inr k.1)

pub Filled-Closed : (m : Migrator) (split : Option SplitContext) → Closed (Filled m split)
unfolding Filled
Filled-Closed m split e tr h k = (Fits-Closed m split e tr h k.0, Copied-later split e tr k.1)
