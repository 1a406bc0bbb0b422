-- ===== src/Orchestrator/Trace.antt =====
-- The outside of `Migrator` (pg_dbmigrator/src/orchestrator.rs): the calls it makes, the trace of
-- what a run has done, newest first, and actions, which extend the trace and may stop with an
-- error.
use pg_migrator.Base.{ℕ, Text, Option, List, ◌∷◌, Bool}
use pg_migrator.Error.{MigrationError, Result, ok, err, is_ok}
use pg_migrator.Progress.{ProgressEvent, MigrationStage, Message}
use pg_migrator.Dump.{DumpRequest, Invocation}
use pg_migrator.Restore.Command.{RestoreRequest}
use pg_migrator.Resume.Hash.{HashItem}
use pg_migrator.Resume.Token.{ResumeToken}
use pg_migrator.Resume.File.{ReadOutcome}
use pg_migrator.CopySplit.Pages.{SplitTable}
use pg_migrator.CopySplit.Run.{Servers}
use pg_migrator.Apply.Loop.{Tick}
use pg_migrator.Apply.Teardown.{Target, Finished}
use pg_migrator.Apply.Stale.{Admin}
use pg_migrator.Maintenance.{Maintenance}
use pg_migrator.Verify.Counts.{Counters}
use pg_migrator.Publication.{Source}
use pg_migrator.Snapshot.{Streams}
use pg_migrator.Sequences.{SyncServers}
use pg_migrator.Preflight.Probes.{Probe}

pub data Call : Type 0 where
  offline_preflight online_preflight force_clean vacuum_source prepare_slot export_snapshot : Call
  analyze_target verify_counts disable_subscription wait_slot_inactive connect_target : Call
  connect_lag sync_sequences drop_slot : Call
  ensure_publication verify_publication drop_publication : Text → Call
  plan_tables : ℕ → ℕ → Call
  pg_dump : DumpRequest → Call
  pg_restore : RestoreRequest → Call
  split_copy : Text → List SplitTable → Bool → Call

-- A call and whether it succeeded; a finished apply phase; a save of the token and whether it
-- succeeded; a report.
pub data Entry : Type 0 where
  called : Call → Bool → Entry
  applied : Finished → Entry
  saved : Text → ResumeToken → Bool → Entry
  reported : ProgressEvent → Entry

abbrev pub Trace : Type 0
Trace = List Entry

-- What the outside answers, given what has happened so far. `probe` is what the preflight
-- checks ask, `none` when the cancellation token fires first; `answer` serves the other calls that
-- return nothing; `read_token` is the token's file when the run starts, and `from_slice` decodes it.
pub record World : Type 0 where
  pub is_cancelled : Trace → Bool
  pub probe : Trace → Option Probe
  pub answer : Call → Trace → Result (Unit {0})
  pub source : Trace → Source
  pub streams : Trace → Streams
  pub planned : Trace → Result (List SplitTable)
  pub exported : Trace → Result Text
  pub maintenance : Trace → Maintenance
  pub admin : Trace → Admin
  pub runner : Trace → Invocation → Result (Unit {0})
  pub is_dir : Trace → Text → Bool
  pub servers : Trace → Servers
  pub counters : Trace → Counters
  pub sequences : Trace → SyncServers
  pub apply_target : Trace → Target
  pub ticks : Trace → List Tick
  pub read_token : Text → ReadOutcome
  pub from_slice : Text → Option ResumeToken
  pub write_token : Text → ResumeToken → Trace → Result (Unit {0})
  pub hasher : List HashItem → Text
  pub temp_path : Text → Text

-- How an action ends; `waiting` when the apply phase is still running.
pub data Outcome {ℓ} (A : Type ℓ) : Type ℓ where
  value : A → Outcome A
  failed : MigrationError → Outcome A
  waiting : Outcome A

abbrev pub Act {ℓ} : Type ℓ → Type ℓ
Act A = Trace → Outcome A × Trace

module _ {ℓ} {A : Type ℓ} where
  unfoldable pub pure : A → Act A
  pure a tr = (value a, tr)

  unfoldable pub fail : MigrationError → Act A
  fail e tr = (failed e, tr)

  abbrev pub from_result : Result A → Outcome A
  from_result (ok a) = value a
  from_result (err e) = failed e

  unfoldable pub lift : Result A → Act A
  lift r tr = (from_result r, tr)

  -- make a call, whose answer the world gives
  unfoldable pub ask : Call → (Trace → Result A) → Act A
  ask c f tr = let r = f tr in (from_result r, called c (is_ok r) ∷ tr)

  abbrev caught : Outcome A → Outcome (Result A)
  caught (value a) = value (ok a)
  caught (failed e) = value (err e)
  caught waiting = waiting

  -- `match action.await { Ok(..) => .., Err(..) => .. }`
  unfoldable pub attempt : Act A → Act (Result A)
  attempt m tr = let (r, tr') = m tr in (caught r, tr')

module _ {ℓ κ} {A : Type ℓ} {B : Type κ} where
  abbrev pub continue : Outcome A → (A → Act B) → Act B
  continue (value a) f tr = f a tr
  continue (failed e) f tr = (failed e, tr)
  continue waiting f tr = (waiting, tr)

  infixl 10 ◌>>=◌ ◌>>◌
  unfoldable pub ◌>>=◌ : Act A → (A → Act B) → Act B
  ◌>>=◌ m f tr = let (r, tr') = m tr in continue r f tr'

  abbrev pub ◌>>◌ : Act A → Act B → Act B
  m >> n = m >>= λ _. n

unfoldable pub report : MigrationStage → Message → Act (Unit {0})
report stage message tr = (value tt, reported (record { stage = stage; message = message }) ∷ tr)
