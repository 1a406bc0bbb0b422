-- ===== src/Apply/Reports.antt =====
-- The events of the apply loop (native_apply.rs).
use pg_migrator.Base.{
  ℕ, ◌+◌, ◌-◌, List, [], ◌∷◌, ◌++◌, true, false, ◌≡◌, refl, arith, if◌then◌else◌, length, All,
}
use pg_migrator.Error.{ok}
use pg_migrator.Config.{OnlineOptions}
use pg_migrator.Progress.{ProgressEvent, is_caught_up_event}
use pg_migrator.Cutover.{new_sampler, observe, transition_lag}
use pg_migrator.Apply.Loop.{
  LoopState, Tick, slept, LoopResult, running, ended, start, heartbeat, transition_events,
  next_stale, poll, step, run_loop,
}

abbrev pub caught_up_events : List ProgressEvent → ℕ
caught_up_events [] = 0
caught_up_events (e ∷ es) = (if is_caught_up_event e then 1 else 0) + caught_up_events es

caught_up_events-append :
    (xs ys : List ProgressEvent)
    → caught_up_events (xs ++ ys) ≡ caught_up_events xs + caught_up_events ys
caught_up_events-append [] ys = omega arith
caught_up_events-append (x ∷ xs) ys = omega (arith, caught_up_events-append xs ys)

-- An iteration in which nothing happens: no cancellation, no cutover, and the slot has confirmed
-- all that the source has flushed.
pub record IsIdle (tick : Tick) : Type 0 where
  pub lsn : ℕ
  pub going : tick.cancelled ≡ false
  pub rested : tick.wake ≡ slept
  pub undisturbed : tick.cancelled_after_wait ≡ false
  pub no_cutover : tick.requested ≡ false
  pub drained : tick.sample ≡ ok (lsn, lsn)

abbrev state_of : LoopResult → LoopState
state_of (running st) = st
state_of (ended st r) = st

-- What one idle iteration leaves: it still runs, is caught up, and has reported it.
abbrev AfterIdle : LoopState → LoopResult → Type 0
AfterIdle st r =
    (st' : LoopState) × (r ≡ running st')
    × (st'.sampler.caught_up ≡ true)
    × (caught_up_events st'.events
        ≡ caught_up_events st.events + (if st.sampler.caught_up then 1 else 2))

step-AfterIdle :
    (o : OnlineOptions) (st : LoopState) (tick : Tick) → IsIdle tick → AfterIdle st (step o st tick)
unfolding step poll observe transition_lag next_stale heartbeat transition_events
step-AfterIdle o st tick idle =
    let l = idle.lsn in
    let reported =
      caught_up_events-append st.events
        (heartbeat (l - l) l l ∷ transition_events (observe st.sampler l l).1 l l) in
    (state_of (poll o st tick (ok (l, l))), ground arith, ground arith, ground (arith, reported))

run_loop-idle_from :
    (o : OnlineOptions) (ticks : List Tick) (st : LoopState)
    → st.sampler.caught_up ≡ true
    → All IsIdle ticks
    → (st' : LoopState) × (run_loop o st ticks ≡ running st')
      × (caught_up_events st'.events ≡ caught_up_events st.events + length ticks)
unfolding run_loop
run_loop-idle_from o [] st h idle = (st, refl, omega arith)
run_loop-idle_from o (tick ∷ ticks) st h idle =
    let (st₁, e, up, reported) = step-AfterIdle o st tick idle.0 in
    let (st₂, e', total) = run_loop-idle_from o ticks st₁ up idle.1 in
    (st₂, rw (e, run_loop) e', ground arith)

-- On an idle source every poll reports a "caught up" event: n + 1 idle iterations, from the start
-- of the loop, leave it running with n + 2 such events, one for each poll and one for the
-- transition.
pub run_loop-idle :
    (o : OnlineOptions) (tick : Tick) (ticks : List Tick)
    → IsIdle tick
    → All IsIdle ticks
    → (st : LoopState) × (run_loop o (start o) (tick ∷ ticks) ≡ running st)
      × (caught_up_events st.events ≡ length ticks + 2)
unfolding run_loop start new_sampler
run_loop-idle o tick ticks first rest =
    let (st₁, e, up, reported) = step-AfterIdle o (start o) tick first in
    let (st₂, e', total) = run_loop-idle_from o ticks st₁ up rest in
    (st₂, rw (e, run_loop) e', ground arith)
