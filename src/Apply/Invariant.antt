-- ===== src/Apply/Invariant.antt =====
-- What holds of the apply loop's variables at the top of every iteration (native_apply.rs).
use pg_migrator.Base.{
  ℕ, ◌<◌, some, List, [], ◌∷◌, false, ◌≡◌, refl, ◌⊎◌, inl, inr, arith, if◌then◌else◌,
}
use pg_migrator.Error.{Result, ok, err}
use pg_migrator.Config.{OnlineOptions}
use pg_migrator.Cutover.{new_sampler, observe, transition_lag}
use pg_migrator.Apply.Loop.{
  LoopState, Tick, LoopResult, running, ended, start, next_stale, poll, step, run_loop,
}

pub LoopResult-cases :
    (r : LoopResult)
    → ((st : LoopState) × (r ≡ running st))
      ⊎ ((st : LoopState) × (x : Result (Unit {0})) × (r ≡ ended st x))
LoopResult-cases (running st) = inl (st, refl)
LoopResult-cases (ended st x) = inr (st, x, refl)

-- The state between two iterations: the two LSNs agree and are the last confirmed one, fewer than
-- three polls in a row were stale, the cadence follows the sampler, and no cutover was seen.
pub record IsSteady (o : OnlineOptions) (st : LoopState) : Type 0 where
  pub same_lsn : st.stats.last_received_lsn ≡ st.stats.last_applied_lsn
  pub confirmed : (c : ℕ) → st.prev_confirmed ≡ some c → c ≡ st.stats.last_applied_lsn
  pub stale_low : st.stale_count < 3
  pub threshold : st.sampler.threshold_bytes ≡ o.cutover.lag_threshold_bytes
  pub cadence :
      st.current_interval
      ≡ (if st.sampler.caught_up then o.cutover.fast_poll_interval else o.cutover.poll_interval)
  pub not_triggered : st.stats.cutover_triggered ≡ false

pub start-IsSteady : (o : OnlineOptions) → IsSteady o (start o)
unfolding start new_sampler
start-IsSteady o = record {
  same_lsn = refl;
  confirmed = λ c h. cc;
  stale_low = omega arith;
  threshold = refl;
  cadence = refl;
  not_triggered = refl;
}

poll-IsSteady :
    (o : OnlineOptions) (st : LoopState) (tick : Tick) (r : Result (ℕ × ℕ)) (st' : LoopState)
    → IsSteady o st
    → poll o st tick r ≡ running st'
    → IsSteady o st'
unfolding poll observe transition_lag next_stale
poll-IsSteady o st tick (err e) st' h run = ground arith
poll-IsSteady o st tick (ok (source, confirmed)) st' h run = record {
  same_lsn = ground arith;
  confirmed = λ c e. ground arith;
  stale_low = ground arith;
  threshold = ground arith;
  cadence = ground arith;
  not_triggered = ground arith;
}

pub step-IsSteady :
    (o : OnlineOptions) (st : LoopState) (tick : Tick) (st' : LoopState)
    → IsSteady o st
    → step o st tick ≡ running st'
    → IsSteady o st'
unfolding step
step-IsSteady o st tick st' h run = ground (arith, poll-IsSteady o st tick tick.sample st' h)

run_loop-IsSteady_from :
    (o : OnlineOptions) (ticks : List Tick) (st st' : LoopState)
    → IsSteady o st
    → run_loop o st ticks ≡ running st'
    → IsSteady o st'
unfolding run_loop
run_loop-IsSteady_from o [] st st' h run = ground arith
run_loop-IsSteady_from o (tick ∷ ticks) st st' h run = elim (LoopResult-cases (step o st tick)) [
  | inl (st₁, e) ↦
      run_loop-IsSteady_from o ticks st₁ st' (step-IsSteady o st tick st₁ h e)
        (rw (e, run_loop) at run)
  | inr (st₁, r, e) ↦ ground (arith, e)
]

-- However many iterations have run, whatever they saw, a loop that is still running has counted
-- fewer than three stale polls, reports one confirmed LSN as applied and as received, waits the
-- fast interval exactly while its sampler is caught up, and has seen no cutover.
pub run_loop-IsSteady :
    (o : OnlineOptions) (ticks : List Tick) (st : LoopState)
    → run_loop o (start o) ticks ≡ running st
    → IsSteady o st
run_loop-IsSteady o ticks st = run_loop-IsSteady_from o ticks (start o) st (start-IsSteady o)
