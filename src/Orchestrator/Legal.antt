-- ===== src/Orchestrator/Legal.antt =====
-- What a migration promises about the order of its calls, as a test on traces: each entry must be
-- allowed by the entries before it and by the stages that the token on disk had completed.
use pg_migrator.Base.{
  ℕ, ◌==◌, leb, Option, none, some, [], ◌∷◌, Bool, true, false, not, ◌&&◌, ◌||◌, any, if◌then◌else◌,
}
use pg_migrator.Error.{Result, ok, err}
use pg_migrator.Restore.Command.{RestoreSection, pre_data, only_data, post_data}
use pg_migrator.Resume.Token.{CompletedStage, StageSet, has_stage, ResumeToken}
use pg_migrator.Resume.Token
use pg_migrator.Apply.Loop.{ApplyStats}
use pg_migrator.Orchestrator.Trace.{
  Call, offline_preflight, online_preflight, force_clean, vacuum_source, prepare_slot,
  export_snapshot, analyze_target, verify_counts, disable_subscription, wait_slot_inactive,
  connect_target, connect_lag, sync_sequences, drop_slot, ensure_publication, verify_publication,
  drop_publication, plan_tables, pg_dump, pg_restore, split_copy, Entry, called, applied, saved,
  reported, Trace,
}

abbrev section_rank : Option RestoreSection → ℕ
section_rank none = 9
section_rank (some pre_data) = 9
section_rank (some only_data) = 10
section_rank (some post_data) = 12

-- The place of a call in a migration; 0 for a call that has no place of its own.
abbrev pub call_rank : Call → ℕ
call_rank offline_preflight = 1
call_rank online_preflight = 1
call_rank force_clean = 2
call_rank vacuum_source = 3
call_rank (ensure_publication _) = 4
call_rank (verify_publication _) = 4
call_rank prepare_slot = 5
call_rank (plan_tables _ _) = 6
call_rank export_snapshot = 7
call_rank (pg_dump _) = 8
call_rank (pg_restore req) = section_rank req.section
call_rank (split_copy _ _ _) = 11
call_rank analyze_target = 13
call_rank disable_subscription = 14
call_rank connect_target = 15
call_rank connect_lag = 16
call_rank sync_sequences = 18
call_rank (drop_publication _) = 19
call_rank drop_slot = 20
call_rank verify_counts = 21
call_rank wait_slot_inactive = 0

abbrev pub rank : Entry → ℕ
rank (called c _) = call_rank c
rank (applied _) = 17
rank (saved _ _ _) = 0
rank (reported _) = 0

-- the place that a trace has reached
unfoldable pub last_rank : Trace → ℕ
last_rank [] = 0
last_rank (e ∷ past) = if rank e == 0 then last_rank past else rank e

-- Whether the entry is a call of that kind that succeeded.
abbrev pub did : (Call → Bool) → Entry → Bool
did is_it (called c true) = is_it c
did is_it _ = false

abbrev pub is_vacuum : Call → Bool
is_vacuum vacuum_source = true
is_vacuum _ = false

abbrev pub is_slot : Call → Bool
is_slot prepare_slot = true
is_slot _ = false

abbrev pub is_dump : Call → Bool
is_dump (pg_dump _) = true
is_dump _ = false

abbrev pub is_analyze : Call → Bool
is_analyze analyze_target = true
is_analyze _ = false

abbrev pub is_wait : Call → Bool
is_wait wait_slot_inactive = true
is_wait _ = false

abbrev pub section_code : Option RestoreSection → ℕ
section_code none = 0
section_code (some pre_data) = 1
section_code (some only_data) = 2
section_code (some post_data) = 3

abbrev pub restores : Option RestoreSection → Call → Bool
restores section (pg_restore req) = section_code req.section == section_code section
restores section _ = false

-- Whether the trace holds the work that the stage stands for: for the restore, one call over the
-- whole archive or a call for each section. No run marks `verified`.
unfoldable pub done : Trace → CompletedStage → Bool
done tr Token.source_vacuum = any (did is_vacuum) tr
done tr Token.prepare_snapshot = any (did is_slot) tr
done tr Token.dump = any (did is_dump) tr
done tr Token.restore =
    any (did (restores none)) tr
    || (any (did (restores (some pre_data))) tr
        && any (did (restores (some only_data))) tr
        && any (did (restores (some post_data))) tr)
done tr Token.analyze = any (did is_analyze) tr
done tr Token.verified = false

-- `b` implies `c`
abbrev pub implies : Bool → Bool → Bool
implies b c = not b || c

abbrev covers_stage : StageSet → Trace → StageSet → CompletedStage → Bool
covers_stage before tr set stage =
    implies (has_stage stage set) (has_stage stage before || done tr stage)

-- Whether every stage of `set` was complete before the run or has been done by it.
unfoldable pub covers : StageSet → Trace → StageSet → Bool
covers before tr set =
    covers_stage before tr set Token.source_vacuum
    && covers_stage before tr set Token.prepare_snapshot
    && covers_stage before tr set Token.dump
    && covers_stage before tr set Token.restore
    && covers_stage before tr set Token.analyze
    && covers_stage before tr set Token.verified

-- the stage whose completion makes a call superfluous
abbrev pub superseded : StageSet → Call → Bool
superseded before vacuum_source = before.has_source_vacuum
superseded before (ensure_publication _) = before.has_dump
superseded before (verify_publication _) = before.has_dump
superseded before prepare_slot = before.has_dump
superseded before (pg_dump _) = before.has_dump
superseded before (pg_restore _) = before.has_restore
superseded before (split_copy _ _ _) = before.has_restore
superseded before analyze_target = before.has_analyze
superseded before _ = false

abbrev succeeded_with_cutover : Result ApplyStats → Bool
succeeded_with_cutover (ok stats) = stats.cutover_triggered
succeeded_with_cutover (err e) = false

-- an apply phase that ended in a cutover
abbrev pub cuts_over : Entry → Bool
cuts_over (applied f) = succeeded_with_cutover f.outcome
cuts_over _ = false

abbrev pub needs_cutover : Call → Bool
needs_cutover sync_sequences = true
needs_cutover (drop_publication _) = true
needs_cutover drop_slot = true
needs_cutover _ = false

-- what only some entries need, besides their place
abbrev pub permitted : StageSet → Trace → Entry → Bool
permitted before past (called c _) =
    not (superseded before c) && implies (needs_cutover c) (any cuts_over past)
permitted before past (applied _) = any (did is_wait) past
permitted before past (saved _ token _) = covers before past token.completed
permitted before past (reported _) = true

unfoldable pub in_place : Trace → Entry → Bool
in_place past e = rank e == 0 || leb (last_rank past) (rank e)

unfoldable pub legal : StageSet → Trace → Bool
legal before [] = true
legal before (e ∷ past) = legal before past && in_place past e && permitted before past e
