-- ===== src/Apply/Exits.antt =====
-- How the apply loop ends, and what it leaves on the target (native_apply.rs).
use mathlib.Core.Path.{subst}
use pg_migrator.Base.{ℕ, List, [], ◌∷◌, true, false, ◌≡◌, ◌≢◌, refl, sym, ◌⊎◌, inl, inr, arith, In}
use pg_migrator.Error.{Result, ok, err}
use pg_migrator.Config.{OnlineOptions}
use pg_migrator.Apply.Loop.{
  LoopState, Tick, cancel_fired, LoopResult, running, ended, start, check_apply_worker_health, poll,
  step, run_loop,
}
use pg_migrator.Apply.Invariant.{LoopResult-cases, IsSteady, start-IsSteady, step-IsSteady}

-- Why an iteration that saw `tick` ends the loop in `st` with `r`.
abbrev pub Ends : OnlineOptions → Tick → LoopState → Result (Unit {0}) → Type 0
Ends o tick st r =
    ((tick.cancelled ≡ true) × (r ≡ ok tt) × (st.stats.cutover_triggered ≡ false))
    ⊎ ((tick.cancelled ≡ false)
        × (tick.requested ≡ true)
        × (r ≡ ok tt)
        × (st.stats.cutover_triggered ≡ true))
    ⊎ ((tick.cancelled ≡ false)
        × (tick.requested ≡ false)
        × (r ≢ ok tt)
        × (r ≡ (check_apply_worker_health o.subscription_name tick.health).1)
        × (st.stats.cutover_triggered ≡ false))

poll-ended :
    (o : OnlineOptions) (st : LoopState) (tick : Tick) (s : Result (ℕ × ℕ)) (st' : LoopState)
    (r : Result (Unit {0}))
    → poll o st tick s ≡ ended st' r
    → (r ≢ ok tt)
      × (r ≡ (check_apply_worker_health o.subscription_name tick.health).1)
      × (st'.stats.cutover_triggered ≡ st.stats.cutover_triggered)
unfolding poll
poll-ended o st tick (err e) st' r run = ground arith
poll-ended o st tick (ok (source, confirmed)) st' r run = ground arith

step-Ends :
    (o : OnlineOptions) (st : LoopState) (tick : Tick) (st' : LoopState) (r : Result (Unit {0}))
    → st.stats.cutover_triggered ≡ false
    → step o st tick ≡ ended st' r
    → Ends o tick st' r
unfolding step
step-Ends o st tick st' r h run = ground (arith, poll-ended o st tick tick.sample st' r)

abbrev pub EndsAt : OnlineOptions → List Tick → LoopState → Result (Unit {0}) → Type 0
EndsAt o ticks st r = (tick : Tick) × In tick ticks × Ends o tick st r

run_loop-Ends_from :
    (o : OnlineOptions) (ticks : List Tick) (st st' : LoopState) (r : Result (Unit {0}))
    → IsSteady o st
    → run_loop o st ticks ≡ ended st' r
    → EndsAt o ticks st' r
unfolding run_loop
run_loop-Ends_from o [] st st' r h run = ground arith
run_loop-Ends_from o (tick ∷ ticks) st st' r h run = elim (LoopResult-cases (step o st tick)) [
  | inl (st₁, e) ↦ later (
      run_loop-Ends_from o ticks st₁ st' r (step-IsSteady o st tick st₁ h e)
        (rw (e, run_loop) at run))
  | inr (st₁, x, e) ↦
      (tick, inl refl, step-Ends o st tick st' r h.not_triggered (ground (arith, e)))
]
  where
    later : EndsAt o ticks st' r → EndsAt o (tick ∷ ticks) st' r
    later (t, m, why) = (t, inr m, why)

-- The loop ends only in one of three ways: at an iteration that saw the cancellation, without an
-- error and without a cutover; at one that saw the cutover request and no cancellation, without an
-- error; or at one that saw neither and whose check of the apply worker failed, with the error of
-- that check. A failed lag sample alone never ends it.
pub run_loop-Ends :
    (o : OnlineOptions) (ticks : List Tick) (st : LoopState) (r : Result (Unit {0}))
    → run_loop o (start o) ticks ≡ ended st r
    → EndsAt o ticks st r
run_loop-Ends o ticks st r = run_loop-Ends_from o ticks (start o) st r (start-IsSteady o)

-- the iteration is not cut short by the cancellation during its wait
abbrev pub ReachesTest : Tick → Type 0
ReachesTest tick = (tick.wake ≢ cancel_fired) × (tick.cancelled_after_wait ≡ false)

abbrev pub HasEnded : LoopResult → Type 0
HasEnded r = (st : LoopState) × (x : Result (Unit {0})) × (r ≡ ended st x)

step-HasEnded :
    (o : OnlineOptions) (st : LoopState) (tick : Tick)
    → (tick.cancelled ≡ true) ⊎ ((tick.requested ≡ true) × ReachesTest tick)
    → (st' : LoopState) → step o st tick ≢ running st'
unfolding step
step-HasEnded o st tick h st' run = ground arith

run_loop_running :
    (o : OnlineOptions) (st st₁ : LoopState) (t : Tick) (ticks : List Tick)
    → step o st t ≡ running st₁
    → run_loop o st (t ∷ ticks) ≡ run_loop o st₁ ticks
unfolding run_loop
run_loop_running o st st₁ t ticks e = rw (e, run_loop)

run_loop_ended :
    (o : OnlineOptions) (st st₁ : LoopState) (x : Result (Unit {0})) (t : Tick) (ticks : List Tick)
    → step o st t ≡ ended st₁ x
    → run_loop o st (t ∷ ticks) ≡ ended st₁ x
unfolding run_loop
run_loop_ended o st st₁ x t ticks e = rw (e, run_loop)

-- The loop has ended once it was given an iteration that sees the cancellation, or one that sees
-- the cutover request and is not cut short: neither waits for a lag sample to succeed.
pub run_loop-HasEnded :
    (o : OnlineOptions) (ticks : List Tick) (st : LoopState) (tick : Tick)
    → In tick ticks
    → (tick.cancelled ≡ true) ⊎ ((tick.requested ≡ true) × ReachesTest tick)
    → HasEnded (run_loop o st ticks)
run_loop-HasEnded o [] st tick m h = absurd m
run_loop-HasEnded o (t ∷ ticks) st tick m h = elim (LoopResult-cases (step o st t)) [
  | inr (st₁, x, e) ↦ (st₁, x, run_loop_ended o st st₁ x t ticks e)
  | inl (st₁, e) ↦
      subst HasEnded (sym (run_loop_running o st st₁ t ticks e))
        (run_loop-HasEnded o ticks st₁ tick (further st₁ e m) h)
]
  where
    further : (st₁ : LoopState) → step o st t ≡ running st₁ → In tick (t ∷ ticks) → In tick ticks
    further st₁ e (inl same) = absurd (step-HasEnded o st t (rw same at h) st₁ e)
    further st₁ e (inr deep) = deep
