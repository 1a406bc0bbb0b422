-- ===== src/Apply/Cleanup.antt =====
-- What a finished apply phase has sent to the target (`run_native_apply` and
-- `teardown_subscription` of native_apply.rs).
use pg_migrator.Base.{
  Text, some, List, [], ◌∷◌, Bool, true, false, ◌≡◌, refl, ◌⊎◌, inl, inr, arith, if◌then◌else◌, In,
}
use pg_migrator.Error.{Result, ok, err, ◌>>=◌}
use pg_migrator.Config.{OnlineOptions}
use pg_migrator.Apply.Loop.{LoopState, Tick, LoopResult, running, ended, start, run_loop}
use pg_migrator.Apply.Exits.{EndsAt, run_loop-Ends}
use pg_migrator.Apply.Teardown.{
  create_subscription, reattach, disable, detach_slot, drop_subscription, Target,
  teardown_subscription, attach, Finished, run_native_apply,
}

-- The steps of a teardown that drops, each after the one before it succeeded.
pub record Dropped (t : Target) (o : OnlineOptions) (cutover_triggered : Bool) : Type 0 where
  pub asked : o.drop_subscription_on_cutover ≡ true
  pub cut_over : cutover_triggered ≡ true
  pub disabled : t.run (disable o.subscription_name) ≡ ok tt
  pub detached : t.run (detach_slot o.subscription_name) ≡ ok tt

teardown-Dropped :
    (t : Target) (o : OnlineOptions) (triggered : Bool) (name : Text)
    → In (drop_subscription name) (teardown_subscription t o triggered).sent
    → (name ≡ o.subscription_name) × Dropped t o triggered
unfolding teardown_subscription
teardown-Dropped t o triggered name h = ground arith

-- The two ways a phase finishes: attaching failed, or the loop ended.
abbrev Finishes : Target → OnlineOptions → Text → List Tick → Finished → Type 0
Finishes t o source_conn ticks f =
    ((f.torn_down ≡ []) × (f.attached ≡ (attach t o source_conn).sent))
    ⊎ ((st : LoopState) × (r : Result (Unit {0})) × (run_loop o (start o) ticks ≡ ended st r)
        × (f.attached ≡ (attach t o source_conn).sent)
        × (f.torn_down ≡ (teardown_subscription t o st.stats.cutover_triggered).sent)
        × (f.outcome ≡ (r >>= λ _. ok st.stats)))

run_native_apply-Finishes :
    (t : Target) (o : OnlineOptions) (source_conn : Text) (ticks : List Tick) (f : Finished)
    → run_native_apply t o source_conn ticks ≡ some f
    → Finishes t o source_conn ticks f
unfolding run_native_apply
run_native_apply-Finishes t o source_conn ticks f h =
    go (attach t o source_conn).result refl (run_loop o (start o) ticks) refl
  where
    go :
        (a : Result (Unit {0}))
        → (attach t o source_conn).result ≡ a
        → (l : LoopResult) → run_loop o (start o) ticks ≡ l
        → Finishes t o source_conn ticks f
    go (err e) ea l el = inl (ground arith, ground arith)
    go (ok _) ea (running st) el = absurd (ground arith)
    go (ok _) ea (ended st r) el = inr (st, r, el, ground arith, ground arith, ground arith)

-- What is sent before the loop: at most one statement, the one that fits the target.
attached-lem :
    (t : Target) (o : OnlineOptions) (source_conn : Text) (exists : Bool)
    → t.subscription_exists ≡ ok exists
    → ((attach t o source_conn).sent ≡ [])
      ⊎ ((attach t o source_conn).sent
          ≡ (if exists
              then reattach o.subscription_name source_conn o.slot_name
              else create_subscription o.subscription_name source_conn o.publication o.slot_name)
            ∷ [])
unfolding attach
attached-lem t o source_conn exists h = ground arith

-- A subscription that a previous run left on the target is re-attached and never created again,
-- and one that is not there is created and never re-attached, so the replication origin survives
-- a resume.
pub attached_once :
    (t : Target) (o : OnlineOptions) (source_conn : Text) (ticks : List Tick) (f : Finished)
    (exists : Bool)
    → run_native_apply t o source_conn ticks ≡ some f
    → t.subscription_exists ≡ ok exists
    → (f.attached ≡ [])
      ⊎ (f.attached
          ≡ (if exists
              then reattach o.subscription_name source_conn o.slot_name
              else create_subscription o.subscription_name source_conn o.publication o.slot_name)
            ∷ [])
attached_once t o source_conn ticks f exists h e = ground (
  arith,
  run_native_apply-Finishes t o source_conn ticks f h,
  attached-lem t o source_conn exists e,
)

-- The iteration that asked for the cutover.
abbrev pub Requested : List Tick → Type 0
Requested ticks = (tick : Tick) × In tick ticks × (tick.requested ≡ true) × (tick.cancelled ≡ false)

requested_lem :
    (o : OnlineOptions) (ticks : List Tick) (st : LoopState) (r : Result (Unit {0}))
    → EndsAt o ticks st r
    → st.stats.cutover_triggered ≡ true
    → Requested ticks
requested_lem o ticks st r (tick, m, why) h = (tick, m, ground arith, ground arith)

after_cutover :
    (t : Target) (o : OnlineOptions) (ticks : List Tick) (st : LoopState) (r : Result (Unit {0}))
    {name : Text}
    → EndsAt o ticks st r
    → (name ≡ o.subscription_name) × Dropped t o st.stats.cutover_triggered
    → (name ≡ o.subscription_name) × Dropped t o true × Requested ticks
after_cutover t o ticks st r ends (same, d) = (
  same,
  record { asked = d.asked; cut_over = refl; disabled = d.disabled; detached = d.detached },
  requested_lem o ticks st r ends d.cut_over,
)

-- When the apply phase drops the subscription, it is the configured one, the operator asked for
-- it, an iteration saw the cutover request and no cancellation, and the subscription had first
-- been disabled and then detached from its slot.
pub drop_only_after_cutover :
    (t : Target) (o : OnlineOptions) (source_conn : Text) (ticks : List Tick) (f : Finished)
    (name : Text)
    → run_native_apply t o source_conn ticks ≡ some f
    → In (drop_subscription name) f.torn_down
    → (name ≡ o.subscription_name) × Dropped t o true × Requested ticks
drop_only_after_cutover t o source_conn ticks f name h m =
    elim (run_native_apply-Finishes t o source_conn ticks f h) [
      | inl (nothing, _) ↦ absurd (ground arith)
      | inr (st, r, run, _, sent, _) ↦
          after_cutover t o ticks st r (run_loop-Ends o ticks st r run)
            (teardown-Dropped t o st.stats.cutover_triggered name (rw sent at m))
    ]
