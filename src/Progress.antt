-- ===== src/Progress.antt =====
-- pg_dbmigrator/src/progress.rs: the stages and the events that are reported. The message of an
-- event and its structured detail are one value, with a constructor for each call site.
use pg_migrator.Base.{ℕ, Text, Option, List, ℤ, Bool, true, false}

pub data MigrationStage : Type 0 where
  validate prepare_snapshot source_vacuum dump restore analyze stream_apply lag caught_up cutover
        source_cleanup verify complete :
      MigrationStage

-- What is said with a stage.
pub data Message : Type 0 where
  -- native_apply.rs: the lag, the source LSN and the confirmed LSN
  replication_lag ready_for_cutover fell_behind : ℕ → ℕ → ℕ → Message
  cutover_requested : Message
  worker_missing worker_stopped waiting_for_slot : Text → Message
  -- orchestrator.rs
  starting complete_with_timing skipped_resume : Message
  starting_with_snapshot : Option Text → Message
  section_complete : Text → Message
  split_copied : ℕ → ℕ → Message
  split_planned : List (Text × ℤ) → ℕ → Message
  split_below_threshold : ℕ → Message
  sequences_synced : ℕ → Message
  sequences_failed sequences_start : Message
  preflight_summary : List (Text × Bool) → Message
  verify_summary : ℕ → ℕ → Message
  verify_skipped : Message
  force_clean ensuring_publication verifying_publication : Message
  dropping_publication dropping_slot : Text → Message
  finished : Message

pub record ProgressEvent : Type 0 where
  pub stage : MigrationStage
  pub message : Message

abbrev pub is_caught_up_event : ProgressEvent → Bool
is_caught_up_event e = elim e.stage [ caught_up ↦ true | _ ↦ false ]
