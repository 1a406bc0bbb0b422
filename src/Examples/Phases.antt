-- ===== src/Examples/Phases.antt =====
-- The apply phase, the sampler and the direct copy at example inputs.
use pg_migrator.Base.{
  ◌+◌, refl, ◌≡◌, ◌<◌, ◌≤◌, ℕ, Text, lit, none, some, List, [], ◌∷◌, true, false, inl, inr, In,
  arith, length, pos, if◌then◌else◌,
}
use pg_migrator.Error.{ok}
use pg_migrator.Progress
use pg_migrator.Progress.{cutover_requested}
use pg_migrator.Apply.Loop.{LoopState, running, ended, start, step, run_loop}
use pg_migrator.Apply.Teardown.{
  Finished, create_subscription, disable, detach_slot, drop_subscription, execute, attach,
  teardown_subscription, run_native_apply,
}
use pg_migrator.Apply.Invariant.{IsSteady, run_loop-IsSteady}
use pg_migrator.Apply.Exits.{EndsAt, HasEnded, run_loop-Ends, run_loop-HasEnded}
use pg_migrator.Apply.Cleanup.{Dropped, Requested, drop_only_after_cutover}
use pg_migrator.Apply.Reports.{IsIdle, caught_up_events, run_loop-idle}
use pg_migrator.Cutover.{new_sampler}
use pg_migrator.Cutover.Laws.{observe_all, ups, downs, alternation}
use pg_migrator.CopySplit.Pages.{TablePart, SplitTable, split_pages}
use pg_migrator.CopySplit.Cover.{copies_of, split_pages-covers}
use pg_migrator.CopySplit.Run.{copied, copy_table, then_tables, sum_rows, run_split_copy}
use pg_migrator.CopySplit.Safety.{SafeIn, full_actions, run_split_copy-safe, run_split_copy-full}
use pg_migrator.Examples.Data.{options, cutover_tick, idle_tick, target, servers}

-- the state in which the example loop ends
abbrev cut_state : LoopState
cut_state = record (start options) {
  stats = record (start options).stats { cutover_triggered = true };
  events = record { stage = Progress.cutover; message = cutover_requested } ∷ [];
}

loop_ends : run_loop options (start options) (cutover_tick ∷ []) ≡ ended cut_state (ok tt)
unfolding run_loop step start
loop_ends = refl

run_loop-Ends_example : EndsAt options (cutover_tick ∷ []) cut_state (ok tt)
run_loop-Ends_example = run_loop-Ends options (cutover_tick ∷ []) cut_state (ok tt) loop_ends

run_loop-HasEnded_example :
    HasEnded (run_loop options (start options) (idle_tick ∷ cutover_tick ∷ []))
run_loop-HasEnded_example =
    run_loop-HasEnded options (idle_tick ∷ cutover_tick ∷ []) (start options) cutover_tick
      (inr (inl refl)) (inr (refl, (ground arith, refl)))

run_loop-IsSteady_example : IsSteady options (start options)
unfolding run_loop
run_loop-IsSteady_example = run_loop-IsSteady options [] (start options) refl

idle : IsIdle idle_tick
idle = record {
  lsn = 7;
  going = refl;
  rested = refl;
  undisturbed = refl;
  no_cutover = refl;
  drained = refl;
}

run_loop-idle_example :
    (st : LoopState) × (run_loop options (start options) (idle_tick ∷ idle_tick ∷ []) ≡ running st)
    × (caught_up_events st.events ≡ 3)
run_loop-idle_example = run_loop-idle options idle_tick (idle_tick ∷ []) idle (idle, tt)

abbrev conn : Text
conn = lit "host=h"

abbrev phase : Finished
phase = record {
  attached = create_subscription (lit "sub") conn (lit "pub") (lit "slot") ∷ [];
  torn_down = disable (lit "sub") ∷ detach_slot (lit "sub") ∷ drop_subscription (lit "sub") ∷ [];
  events = cut_state.events;
  outcome = ok cut_state.stats;
}

phase_finishes : run_native_apply target options conn (cutover_tick ∷ []) ≡ some phase
unfolding run_native_apply attach execute teardown_subscription run_loop step start
phase_finishes = refl

drop_only_after_cutover_example :
    (lit "sub" ≡ options.subscription_name)
    × Dropped target options true
    × Requested (cutover_tick ∷ [])
drop_only_after_cutover_example =
    drop_only_after_cutover target options conn (cutover_tick ∷ []) phase (lit "sub") phase_finishes
      (inr (inr (inl refl)))

alternation_example :
    let (s, ts) = observe_all (new_sampler 10) ((100, 50) ∷ (100, 95) ∷ (200, 100) ∷ []) in
    ups ts ≡ downs ts + (if s.caught_up then 1 else 0)
alternation_example = alternation 10 ((100, 50) ∷ (100, 95) ∷ (200, 100) ∷ [])

split_pages-covers_example :
    (parts : List TablePart) × (split_pages (lit "t") (pos 10) 3 ≡ some parts)
    × ((page : ℕ) → copies_of page parts ≡ 1)
    × (0 < length parts)
    × (length parts ≤ 3)
split_pages-covers_example =
    split_pages-covers (lit "t") 10 3 (omega arith) (omega arith) (omega arith)

abbrev table : SplitTable
table = record {
  table = lit "big";
  bytes = pos 9000;
  columns = lit "id" ∷ [];
  parts = record { table = lit "big"; start_page = 0; end_page = none } ∷ [];
}

copied_big : In (copied (lit "big")) (run_split_copy servers false (table ∷ [])).actions
unfolding run_split_copy then_tables copy_table
copied_big = inr (inl refl)

run_split_copy-safe_example : SafeIn servers false (table ∷ []) (copied (lit "big"))
run_split_copy-safe_example =
    run_split_copy-safe servers false (table ∷ []) (copied (lit "big")) copied_big

copied_rows : (run_split_copy servers false (table ∷ [])).result ≡ ok 7
unfolding run_split_copy then_tables copy_table sum_rows
copied_rows = refl

run_split_copy-full_example :
    (run_split_copy servers false (table ∷ [])).actions ≡ full_actions (table ∷ [])
run_split_copy-full_example = run_split_copy-full servers false (table ∷ []) 7 copied_rows
