-- ===== src/Apply/Loop.antt =====
-- The loop of `run_native_apply`, with `report_lag_heartbeat`, `report_transition` and
-- `check_apply_worker_health` (pg_dbmigrator/src/native_apply.rs).
use pg_migrator.Base.{
  ℕ, ◌+◌, Text, Option, none, some, List, [], ◌∷◌, ◌++◌, Bool, true, false, ◌&&◌, ◌||◌, ltb, leb,
  ◌==◌, if◌then◌else◌,
}
use pg_migrator.Error.{Result, ok, err, apply, worker_not_running}
use pg_migrator.Error
use pg_migrator.Config.{OnlineOptions}
use pg_migrator.Progress.{
  ProgressEvent, lag, caught_up, stream_apply, cutover, replication_lag, ready_for_cutover,
  fell_behind, cutover_requested, worker_missing, worker_stopped,
}
use pg_migrator.Cutover.{LagSampler, new_sampler, Transition, transition_lag, observe}

pub record ApplyStats : Type 0 where
  pub last_applied_lsn : ℕ
  pub last_received_lsn : ℕ
  pub last_lag_bytes : ℕ
  pub cutover_triggered : Bool

-- The variables of the loop, and the events reported so far.
pub record LoopState : Type 0 where
  pub sampler : LagSampler
  pub stats : ApplyStats
  pub stale_count : ℕ
  pub prev_confirmed : Option ℕ
  pub current_interval : ℕ
  pub events : List ProgressEvent

-- Which branch of the `select!` of the wait completes.
pub data Wake : Type 0 where
  slept cancel_fired cutover_notified : Wake

abbrev pub is_cancel_fired : Wake → Bool
is_cancel_fired cancel_fired = true
is_cancel_fired _ = false

-- What one iteration sees: the cancellation token at its top, the time since the last poll, the
-- wait's outcome and the token after it, the cutover flag, the lag sample, and the `pid` of each
-- row of `pg_stat_subscription`.
pub record Tick : Type 0 where
  pub cancelled : Bool
  pub elapsed : ℕ
  pub wake : Wake
  pub cancelled_after_wait : Bool
  pub requested : Bool
  pub sample : Result (ℕ × ℕ)
  pub health : Result (List (Option ℕ))

pub data LoopResult : Type 0 where
  running : LoopState → LoopResult
  ended : LoopState → Result (Unit {0}) → LoopResult

-- the variables as `run_native_apply` sets them up
unfoldable pub start : OnlineOptions → LoopState
start o = record {
  sampler = new_sampler o.cutover.lag_threshold_bytes;
  stats = record {
    last_applied_lsn = 0;
    last_received_lsn = 0;
    last_lag_bytes = 0;
    cutover_triggered = false;
  };
  stale_count = 0;
  prev_confirmed = none;
  current_interval = o.cutover.poll_interval;
  events = [];
}

-- `report_lag_heartbeat`
unfoldable pub heartbeat : ℕ → ℕ → ℕ → ProgressEvent
heartbeat lag_bytes source confirmed = record {
  stage = if lag_bytes == 0 then caught_up else lag;
  message = replication_lag lag_bytes source confirmed;
}

-- `report_transition`
unfoldable pub transition_events : Transition → ℕ → ℕ → List ProgressEvent
transition_events (Transition.just_caught_up l) source target =
    record { stage = caught_up; message = ready_for_cutover l source target } ∷ []
transition_events (Transition.fell_behind l) source target =
    record { stage = stream_apply; message = fell_behind l source target } ∷ []
transition_events _ source target = []

-- `prev_confirmed == Some(confirmed_lsn)`
abbrev pub is_at : Option ℕ → ℕ → Bool
is_at none n = false
is_at (some m) n = m == n

-- the stale counter after a sample
unfoldable pub next_stale : Option ℕ → ℕ → ℕ → ℕ → ℕ
next_stale prev confirmed lag_bytes stale =
    if is_at prev confirmed && ltb 0 lag_bytes then stale + 1 else 0

-- `check_apply_worker_health`: the events that it reports and its result
unfoldable pub check_apply_worker_health :
    Text → Result (List (Option ℕ)) → List ProgressEvent × Result (Unit {0})
check_apply_worker_health name (err e) = ([], err e)
check_apply_worker_health name (ok []) = (
  record { stage = stream_apply; message = worker_missing name } ∷ [],
  err (apply (worker_not_running name)),
)
check_apply_worker_health name (ok (none ∷ rows)) = (
  record { stage = stream_apply; message = worker_stopped name } ∷ [],
  err (apply (Error.worker_stopped name)),
)
check_apply_worker_health name (ok (some pid ∷ rows)) = ([], ok tt)

-- the loop goes on after a healthy check, and breaks with its error
after_health : LoopState → List ProgressEvent × Result (Unit {0}) → LoopResult
after_health st (reported, ok _) = running (record st { events = st.events ++ reported })
after_health st (reported, err e) = ended (record st { events = st.events ++ reported }) (err e)

-- the `Ok` arm of the lag sample
on_sample : OnlineOptions → LoopState → Tick → ℕ → ℕ → LoopResult
unfolding after_health
on_sample o st tick source confirmed =
    let (sampler', transition) = observe st.sampler source confirmed in
    let lag_bytes = transition_lag transition in
    let stale = next_stale st.prev_confirmed confirmed lag_bytes st.stale_count in
    let st' : LoopState = record {
      sampler = sampler';
      stats = record {
        last_applied_lsn = confirmed;
        last_received_lsn = confirmed;
        last_lag_bytes = lag_bytes;
        cutover_triggered = st.stats.cutover_triggered;
      };
      stale_count = if leb 3 stale then 0 else stale;
      prev_confirmed = some confirmed;
      current_interval =
          if leb lag_bytes o.cutover.lag_threshold_bytes
          then o.cutover.fast_poll_interval
          else o.cutover.poll_interval;
      events =
          st.events
          ++ heartbeat lag_bytes source confirmed ∷ transition_events transition source confirmed;
    } in
    if leb 3 stale
    then after_health st' (check_apply_worker_health o.subscription_name tick.health)
    else running st'

-- `match lag_provider.sample()`: a failed sample is logged, and the loop goes on.
unfoldable pub poll : OnlineOptions → LoopState → Tick → Result (ℕ × ℕ) → LoopResult
unfolding on_sample
poll o st tick (ok (source, confirmed)) = on_sample o st tick source confirmed
poll o st tick (err e) = running st

-- the cutover flag was seen
triggered : LoopState → LoopState
triggered st = record st {
  stats = record st.stats { cutover_triggered = true };
  events = st.events ++ record { stage = cutover; message = cutover_requested } ∷ [];
}

-- one iteration
unfoldable pub step : OnlineOptions → LoopState → Tick → LoopResult
unfolding triggered
step o st tick =
    if tick.cancelled
    then ended st (ok tt)
    else if ltb tick.elapsed st.current_interval
        && (is_cancel_fired tick.wake || tick.cancelled_after_wait)
    then running st
    else if tick.requested
    then ended (triggered st) (ok tt)
    else poll o st tick tick.sample

-- The loop over the iterations that the list gives; `running` when the list ends first.
unfoldable pub run_loop : OnlineOptions → LoopState → List Tick → LoopResult
run_loop o st [] = running st
run_loop o st (tick ∷ ticks) = elim (step o st tick) [
  | ended st' r ↦ ended st' r
  | running st' ↦ run_loop o st' ticks
]
