-- ===== src/Orchestrator/Together.antt =====
-- The dump and the direct copy of one run of `Migrator::run`
-- (pg_dbmigrator/src/orchestrator.rs) concern the same tables and the same snapshot, and the copy
-- is done where the run has needed it.
use pg_migrator.Orchestrator.Legal.{section_code}
use pg_migrator.Config.Validate.{validate_iff}
use pg_migrator.Base.{◌==◌, Bool-cases, any}
use pg_migrator.Config.{is_verify}
use pg_migrator.Orchestrator.Choosing.{Joint, run-Joint}
use pg_migrator.Orchestrator.Ending.{found}
use pg_migrator.Orchestrator.Legal.{restores, done, did}
use pg_migrator.Orchestrator.Legality.{stages_on_disk}
use pg_migrator.Orchestrator.Fits.{Reads, Fits, Fitting, Fitting-at, Fitting-In, Copied}
use pg_migrator.Restore.Command.{RestoreSection, RestoreRequest, post_data}
use mathlib.Core.Path.{ap, subst}
use pg_migrator.Base.{
  Bool-cases, any, ◌≢◌, ◌++◌, inr, inl, ◌⊎◌, sym, Text, Option, none, some, List, [], ◌∷◌, Bool,
  true, false, In, ◌≡◌, refl, arith, map,
}
use pg_migrator.Error.{Result, ok, err}
use pg_migrator.Config.{is_verify, MigrationMode, offline, online, verify, validate}
use pg_migrator.CopySplit.Pages.{SplitTable}
use pg_migrator.Dump.{DumpRequest}
use pg_migrator.Orchestrator.Trace.{
  Entry, lift, pg_restore, pg_dump, split_copy, called, Trace, World, value, Act, continue,
  from_result, ◌>>=◌,
}
use pg_migrator.Orchestrator.Setup.{Migrator, SplitContext}
use pg_migrator.Orchestrator.Run.{MigrationOutcome, run}
use pg_migrator.Orchestrator.Promises.{run-success, trace_of}

-- a direct copy that succeeded, of exactly the tables whose data the dump leaves out and from its
-- snapshot
unfoldable pub CopiedFor : DumpRequest → Trace → Type 0
CopiedFor dump tr =
    (plan : List SplitTable) × (id : Text) × (fresh : Bool) × In
      (called (split_copy id plan fresh) true) tr
    × (dump.exclude_table_data ≡ map (λ (t : SplitTable). t.table) plan)
    × (dump.snapshot ≡ some id)

module _ (w : World) (m : Migrator) where
  -- In a run's trace, a direct copy and the dump concern the same data: the dump leaves out the
  -- data of exactly the tables that the copy is given, and reads the snapshot that the copy reads.
  pub split_copy_fits_dump :
      (req : DumpRequest) (dumped : Bool) (id : Text) (plan : List SplitTable) (fresh copied : Bool)
      → In (called (pg_dump req) dumped) (trace_of w m)
      → In (called (split_copy id plan fresh) copied) (trace_of w m)
      → (req.exclude_table_data ≡ map (λ (t : SplitTable). t.table) plan) × (req.snapshot ≡ some id)
  unfolding Joint Fitting Reads
  split_copy_fits_dump req dumped id plan fresh copied in_dump in_copy =
      let dump = (Fitting-In m (run-Joint w m).0 _ (trace_of w m) (run-Joint w m).1 in_dump).1 in
      let same = (Fitting-In m (run-Joint w m).0 _ (trace_of w m) (run-Joint w m).1 in_copy).1 in
      let reads = subst (λ s. Reads s req.snapshot) same dump.1 in (cc, reads)

  filled_by :
      (split : Option SplitContext) (dump : DumpRequest) (dumped : Bool) (past whole : Trace)
      → Fits m split whole
      → In (called (pg_dump dump) dumped) whole
      → Copied split past
      → (dump.exclude_table_data ≡ []) ⊎ CopiedFor dump past
  unfolding Fitting Reads Copied CopiedFor
  filled_by none dump dumped past whole fits in_dump c =
      inl (Fitting-In m none _ whole fits in_dump).1.0
  filled_by (some s) dump dumped past whole fits in_dump c =
      let d = (Fitting-In m (some s) _ whole fits in_dump).1 in
      inr (s.plan, s.snapshot_id, c.0, c.1, d.0, d.1)

  -- The last section of the archive, which creates the indexes and the constraints, is restored
  -- only once a direct copy has filled the tables whose data the run's dump leaves out, if there
  -- are any: a copy that succeeded earlier in the run, of exactly these tables and from the
  -- dump's snapshot.
  pub post_data_after_copy :
      (newer past : Trace) (req : RestoreRequest) (restored : Bool) (dump : DumpRequest)
      (dumped : Bool)
      → trace_of w m ≡ newer ++ called (pg_restore req) restored ∷ past
      → req.section ≡ some post_data
      → In (called (pg_dump dump) dumped) (trace_of w m)
      → (dump.exclude_table_data ≡ []) ⊎ CopiedFor dump past
  unfolding Joint Fitting
  post_data_after_copy newer past req restored dump dumped cut last in_dump =
      let fits = subst (Fits m (run-Joint w m).0) cut (run-Joint w m).1 in
      filled_by (run-Joint w m).0 dump dumped past (trace_of w m) (run-Joint w m).1 in_dump
        ((Fitting-at m (run-Joint w m).0 newer (called (pg_restore req) restored) past fits).0 last)

In-later : (newer past : Trace) (x e : Entry) → In e past → In e (newer ++ x ∷ past)
In-later [] past x e i = inr i
In-later (y ∷ newer) past x e i = inr (In-later newer past x e i)

still_copied :
    (newer past : Trace) (x : Entry) (dump : DumpRequest)
    → (dump.exclude_table_data ≡ []) ⊎ CopiedFor dump past
    → (dump.exclude_table_data ≡ []) ⊎ CopiedFor dump (newer ++ x ∷ past)
unfolding CopiedFor
still_copied newer past x dump (inl h) = inl h
still_copied newer past x dump (inr (plan, id, fresh, i, tables, snapshot)) =
    inr (plan, id, fresh, In-later newer past x _ i, tables, snapshot)

-- a restore of the section that succeeded
Restored : Option RestoreSection → Trace → Type 0
Restored section tr =
    (newer past : Trace) × (req : RestoreRequest) × (tr
      ≡ newer ++ called (pg_restore req) true ∷ past)
    × (req.section ≡ section)

restore_later :
    (section : Option RestoreSection) (e : Entry) (past : Trace)
    → Restored section past
    → Restored section (e ∷ past)
unfolding Restored
restore_later section e past (newer, rest, req, cut, same) =
    (e ∷ newer, rest, req, ap (λ tr. e ∷ tr) cut, same)

same_section : (a b : Option RestoreSection) → (section_code a == section_code b) ≡ true → a ≡ b
same_section a b h = ground (arith, h)

restore_here :
    (section : Option RestoreSection) (e : Entry) (past : Trace)
    → did (restores section) e ≡ true
    → Restored section (e ∷ past)
unfolding Restored
restore_here section (called (pg_restore req) true) past h =
    ([], past, req, refl, same_section _ _ h)
restore_here section e past h = ground (arith, h)

found_restore :
    (section : Option RestoreSection) (tr : Trace)
    → any (did (restores section)) tr ≡ true
    → Restored section tr
unfolding any
found_restore section [] h = ground (arith, h)
found_restore section (e ∷ past) h = elim (Bool-cases (did (restores section) e)) [
  | inl here ↦ restore_here section e past here
  | inr other ↦ restore_later section e past (found_restore section past (ground (arith, h, other)))
]

accepted :
    (r : Result (Unit {0})) (f : Unit {0} → Act MigrationOutcome) (tr : Trace)
    (outcome : MigrationOutcome)
    → (continue (from_result r) f tr).0 ≡ value outcome
    → r ≡ ok tt
accepted (ok _) f tr outcome h = refl
accepted (err e) f tr outcome h = ground (arith, h)

fresh_stages :
    (w : World) (m : Migrator) (mode : MigrationMode)
    → m.config.resume ≡ false
    → (found w m mode).has_restore ≡ false
unfolding stages_on_disk
fresh_stages w m offline h = rw (h) refl
fresh_stages w m online h = rw (h) refl
fresh_stages w m verify h = refl

module _ (w : World) (m : Migrator) where
  run_accepted :
      (outcome : MigrationOutcome) → (run w m []).0 ≡ value outcome → validate m.config ≡ ok tt
  unfolding run ◌>>=◌ lift
  run_accepted outcome h = accepted (validate m.config) _ [] outcome h

  -- A migration with a threshold for large tables that succeeds has filled the tables whose data
  -- its dump leaves out, if there are any: a direct copy has succeeded, of exactly these tables
  -- and from the dump's snapshot.
  pub split_tables_filled :
      (outcome : MigrationOutcome) (dump : DumpRequest) (dumped : Bool)
      → is_verify m.config.mode ≡ false
      → m.config.split_tables_larger_than ≢ none
      → (run w m []).0 ≡ value outcome
      → In (called (pg_dump dump) dumped) (trace_of w m)
      → (dump.exclude_table_data ≡ []) ⊎ CopiedFor dump (trace_of w m)
  unfolding done Joint Fitting Restored
  split_tables_filled outcome dump dumped migrates split success in_dump =
      let ready = ((validate_iff m.config).0 (run_accepted outcome success)).split_ready split in
      let fresh = fresh_stages w m m.config.mode ready.fresh in
      let restored = (run-success w m outcome migrates success).1 in
      elim (Bool-cases (any (did (restores none)) (trace_of w m))) [
        | inl whole ↦
            let (newer, past, req, cut, section) = found_restore none (trace_of w m) whole in
            let fits = subst (Fits m (run-Joint w m).0) cut (run-Joint w m).1 in
            let uncut = (Fitting-at m _ newer _ past fits).1 section in
            ground (arith, uncut, ready.in_sections)
        | inr sectioned ↦
            let (newer, past, req, cut, section) =
              found_restore (some post_data) (trace_of w m)
                (ground (arith, restored, fresh, sectioned)) in
            subst (λ tr. (dump.exclude_table_data ≡ []) ⊎ CopiedFor dump tr) (sym cut)
              (still_copied newer past _ dump
                (post_data_after_copy w m newer past req true dump dumped cut section in_dump))
      ]
