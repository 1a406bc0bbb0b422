-- ===== src/Apply.antt =====
-- pg_dbmigrator/src/native_apply.rs: the apply phase. The lag loop is a step function over what one
-- iteration sees; the target's answers are a record of functions.
pub mod Loop
pub mod Teardown
pub mod Invariant
pub mod Exits
pub mod Cleanup
pub mod Reports
pub use Loop.{
  ApplyStats, LoopState, Wake, slept, cancel_fired, cutover_notified, Tick, LoopResult, running,
  ended,
}
unfoldable pub use Loop.{
  start, heartbeat, transition_events, next_stale, check_apply_worker_health, poll, step, run_loop,
}
pub use Teardown.{
  SubscriptionCommand, create_subscription, reattach, disable, detach_slot, drop_subscription,
  Target, Run, Finished,
}
unfoldable pub use Teardown.{execute, teardown_subscription, attach, run_native_apply}
pub mod Slot
pub mod Stale
