-- ===== src/Apply/Teardown.antt =====
-- `run_native_apply` around its loop: attaching the subscription before, `teardown_subscription`
-- after (pg_dbmigrator/src/native_apply.rs).
use pg_migrator.Base.{Text, List, [], ◌∷◌, ◌++◌, Bool, ◌&&◌, Option, none, some, if◌then◌else◌}
use pg_migrator.Error.{Result, ok, err, ◌>>=◌, ◌>>◌}
use pg_migrator.Config.{OnlineOptions}
use pg_migrator.Progress.{ProgressEvent}
use pg_migrator.Apply.Loop.{ApplyStats, Tick, LoopResult, running, ended, start, run_loop}

-- The statements sent to the target: the subscription, the source's connection, the publication
-- and the slot as the statement names them. `create_subscription` has `create_slot=false`,
-- `enabled=true` and `copy_data=false`.
pub data SubscriptionCommand : Type 0 where
  create_subscription : Text → Text → Text → Text → SubscriptionCommand
  reattach : Text → Text → Text → SubscriptionCommand
  disable detach_slot drop_subscription : Text → SubscriptionCommand

-- The target and pg_walstream: whether a subscription's name can be quoted, whether the
-- subscription exists, whether a statement can be built, the result of running it, and of preparing
-- the health query.
pub record Target : Type 0 where
  pub quote_ident : Text → Result (Unit {0})
  pub subscription_exists : Result Bool
  pub build : SubscriptionCommand → Result (Unit {0})
  pub run : SubscriptionCommand → Result (Unit {0})
  pub prepare : Result (Unit {0})

-- What has been sent, and how it went.
pub record Run {ℓ} (A : Type ℓ) : Type ℓ where
  pub sent : List SubscriptionCommand
  pub result : Result A

-- build a statement, then send it
unfoldable pub execute : Target → SubscriptionCommand → Run (Unit {0})
execute t c = elim (t.build c) [
  | ok _ ↦ record { sent = c ∷ []; result = t.run c }
  | err e ↦ record { sent = []; result = err e }
]

-- `?` between two parts that send statements
then_run : Run (Unit {0}) → Run (Unit {0}) → Run (Unit {0})
then_run m k = elim m.result [
  | ok _ ↦ record { sent = m.sent ++ k.sent; result = k.result }
  | err e ↦ m
]

unfoldable pub teardown_subscription : Target → OnlineOptions → Bool → Run (Unit {0})
unfolding then_run execute
teardown_subscription t o cutover_triggered =
    let name = o.subscription_name in
    then_run (execute t (disable name)) (
      if cutover_triggered && o.drop_subscription_on_cutover
      then then_run (execute t (detach_slot name)) (execute t (drop_subscription name))
      else record { sent = []; result = ok tt })

-- the part before the loop: re-enable the subscription that exists, or create it
unfoldable pub attach : Target → OnlineOptions → Text → Run (Unit {0})
unfolding then_run execute
attach t o source_conn = elim (t.quote_ident o.subscription_name >> t.subscription_exists) [
  | err e ↦ record { sent = []; result = err e }
  | ok exists ↦
      then_run
        (execute t (
          if exists
          then reattach o.subscription_name source_conn o.slot_name
          else create_subscription o.subscription_name source_conn o.publication o.slot_name))
        (record { sent = []; result = t.prepare })
]

-- A finished apply phase: what was sent, the events, and the result. The result of the teardown is
-- only logged.
pub record Finished : Type 0 where
  pub attached : List SubscriptionCommand
  pub torn_down : List SubscriptionCommand
  pub events : List ProgressEvent
  pub outcome : Result ApplyStats

after_loop : Target → OnlineOptions → List SubscriptionCommand → LoopResult → Option Finished
after_loop t o attached (running st) = none
after_loop t o attached (ended st r) = some (record {
  attached = attached;
  torn_down = (teardown_subscription t o st.stats.cutover_triggered).sent;
  events = st.events;
  outcome = r >>= λ _. ok st.stats;
})

-- `none` while the loop is still running.
unfoldable pub run_native_apply : Target → OnlineOptions → Text → List Tick → Option Finished
unfolding after_loop
run_native_apply t o source_conn ticks =
    let a = attach t o source_conn in
    elim a.result [
      | err e ↦ some (record { attached = a.sent; torn_down = []; events = []; outcome = err e })
      | ok _ ↦ after_loop t o a.sent (run_loop o (start o) ticks)
    ]
