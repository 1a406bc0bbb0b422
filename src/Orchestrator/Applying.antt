-- ===== src/Orchestrator/Applying.antt =====
-- The release of the subscription, the wait for the slot and the apply phase of `Migrator` keep the
-- run legal.
use pg_migrator.Base.{◌≡◌, refl, ℕ, ◌≤◌, Bool, true, false, List, ◌∷◌, Option, none, some, arith}
use pg_migrator.Error.{Result, ok, err, is_ok}
use pg_migrator.Resume.Token.{StageSet, ResumeToken}
use pg_migrator.Apply.Loop.{ApplyStats}
use pg_migrator.Apply.Teardown.{Finished, run_native_apply}
use pg_migrator.Orchestrator.Trace.{
  Call, disable_subscription, wait_slot_inactive, connect_target, connect_lag, Entry, called,
  applied, Trace, World, from_result, lift, ask, attempt,
}
use pg_migrator.Orchestrator.Setup.{Migrator}
use pg_migrator.Orchestrator.Run.{
  answered, finish_apply, call, best_effort, release_subscription, apply_phase, run_native_engine,
  subscription_source,
}
use pg_migrator.Orchestrator.Legal.{
  call_rank, did, is_wait, cuts_over, superseded, needs_cutover, in_place,
}
use pg_migrator.Orchestrator.Rules.{Post, Triple, Triple-pure, Triple-if, Triple-bind}
use pg_migrator.Orchestrator.State.{At, At-entry, At-see, At-later, At-forget}
use pg_migrator.Orchestrator.Moves.{Legal, report-At, ask_only-At}

-- a call that moves the state in the same way whether it succeeds or not
module _ {ℓ} {A : Type ℓ} {before base : StageSet} {r r' : ℕ} {seen : List (Entry → Bool)}
    {t : ResumeToken} (c : Call) (f : Trace → Result A)
    (step : (b : Bool) (tr : Trace)
      → At before base r seen t tr
      → At before base r' seen t (called c b ∷ tr)) where
  attempted :
      (tr : Trace) (o : Result A)
      → At before base r seen t tr
      → Post
          (Legal before)
          (λ _. At before base r' seen t)
          (attempt (lift o) (called c (is_ok o) ∷ tr))
  unfolding attempt lift
  attempted tr (ok a) h = step true tr h
  attempted tr (err e) h = step false tr h

  pub attempt_any-At :
      Triple
        (Legal before)
        (At before base r seen t)
        (attempt (ask c f))
        (λ _ tr. At before base r' seen t tr)
  unfolding ask attempt lift
  attempt_any-At = record { at = λ tr h. attempted tr (f tr) h }

module _ {before base : StageSet} {seen : List (Entry → Bool)} {t : ResumeToken} where
  -- a call without a place
  pub wait-step :
      {r : ℕ} (b : Bool) (tr : Trace)
      → At before base r seen t tr
      → At before base r seen t (called wait_slot_inactive b ∷ tr)
  unfolding in_place
  wait-step {r = r} b tr a = At-entry _ r a (ground (arith)) (ground (arith)) refl refl

  -- a call that needs a cutover, after one
  pub cut-step :
      {r : ℕ} (c : Call)
      → r ≤ call_rank c
      → superseded before c ≡ false
      → (b : Bool) (tr : Trace) → At before base r (cuts_over ∷ seen) t tr
      → At before base (call_rank c) (cuts_over ∷ seen) t (called c b ∷ tr)
  unfolding in_place
  cut-step c le fresh b tr a =
      At-entry _ (call_rank c) a le (ground (arith)) (ground (arith, a.reached))
        (ground (arith, a.sees.0))

  free-step :
      {r : ℕ} (c : Call)
      → r ≤ call_rank c
      → superseded before c ≡ false
      → needs_cutover c ≡ false
      → (b : Bool) (tr : Trace) → At before base r seen t tr
      → At before base (call_rank c) seen t (called c b ∷ tr)
  unfolding in_place
  free-step c le fresh free b tr a =
      At-entry _ (call_rank c) a le (ground (arith)) (ground (arith, a.reached)) (ground (arith))

module _ (w : World) (m : Migrator) {before base : StageSet} {seen : List (Entry → Bool)}
    {t : ResumeToken} where
  pub best_effort-At :
      {r r' : ℕ} (c : Call)
      → ((b : Bool) (tr : Trace)
          → At before base r seen t tr
          → At before base r' seen t (called c b ∷ tr))
      → Triple
          (Legal before)
          (At before base r seen t)
          (best_effort w m c)
          (λ _ tr. At before base r' seen t tr)
  unfolding best_effort call
  best_effort-At c step =
      Triple-bind (attempt_any-At c (answered w m c) step) (λ _. Triple-pure tt (λ tr a. a))

  pub release-At :
      {r : ℕ}
      → r ≤ 14
      → Triple
          (Legal before)
          (At before base r seen t)
          (release_subscription w m)
          (λ _ tr. At before base 14 seen t tr)
  unfolding release_subscription
  release-At le =
      Triple-if m.config.resume
        (λ _. best_effort-At disable_subscription (free-step disable_subscription le refl refl))
        (λ _. Triple-pure tt (λ tr a. At-later 14 a le))

  -- waiting for the slot leaves its trace
  waited :
      {r : ℕ} (tr : Trace) (o : Result (Unit {0}))
      → At before base r seen t tr
      → Post
          (Legal before)
          (λ _. At before base r (did is_wait ∷ seen) t)
          (from_result o, called wait_slot_inactive (is_ok o) ∷ tr)
  waited tr (ok _) a =
      At-see (did is_wait) (called wait_slot_inactive true) refl (wait-step true tr a)
  waited tr (err e) a = (wait-step false tr a).is_legal

  pub wait-At :
      {r : ℕ}
      → Triple
          (Legal before)
          (At before base r seen t)
          (call w m wait_slot_inactive)
          (λ _ tr. At before base r (did is_wait ∷ seen) t tr)
  unfolding call ask
  wait-At = record { at = λ tr a. waited tr (answered w m wait_slot_inactive tr) a }

-- the tests once an apply phase has ended, in a cutover or not
abbrev pub cut_seen : Bool → List (Entry → Bool) → List (Entry → Bool)
cut_seen true seen = cuts_over ∷ seen
cut_seen false seen = seen

module _ (w : World) (m : Migrator) {before base : StageSet} {seen : List (Entry → Bool)}
    {t : ResumeToken} where
  see_cut :
      {r : ℕ} (e : Entry) (b : Bool) (tr : Trace)
      → cuts_over e ≡ b
      → At before base r seen t (e ∷ tr)
      → At before base r (cut_seen b seen) t (e ∷ tr)
  see_cut e true tr h a = At-see cuts_over e h a
  see_cut e false tr h a = a

  applied-entry :
      {r : ℕ} (f : Finished) (tr : Trace)
      → r ≤ 17
      → At before base r (did is_wait ∷ seen) t tr
      → At before base 17 seen t (applied f ∷ tr)
  unfolding in_place
  applied-entry f tr le a =
      At-forget (At-entry (applied f) 17 a le (ground (arith)) (ground (arith, a.reached)) a.sees.0)

  concluded :
      {r : ℕ} (f : Finished) (tr : Trace) (o : Result ApplyStats)
      → f.outcome ≡ o
      → r ≤ 17
      → At before base r (did is_wait ∷ seen) t tr
      → Post
          (Legal before)
          (λ (stats : ApplyStats). At before base 17 (cut_seen stats.cutover_triggered seen) t)
          (from_result o, applied f ∷ tr)
  concluded f tr (ok stats) h le a =
      see_cut (applied f) stats.cutover_triggered tr (rw (h) refl) (applied-entry f tr le a)
  concluded f tr (err e) h le a = (applied-entry f tr le a).is_legal

  finished-At :
      {r : ℕ} (tr : Trace) (o : Option Finished)
      → r ≤ 17
      → At before base r (did is_wait ∷ seen) t tr
      → Post
          (Legal before)
          (λ (stats : ApplyStats). At before base 17 (cut_seen stats.cutover_triggered seen) t)
          (finish_apply w m o tr)
  finished-At tr none le a = a.is_legal
  finished-At tr (some f) le a = concluded f tr f.outcome refl le a

  pub apply-At :
      {r : ℕ}
      → r ≤ 15
      → Triple
          (Legal before)
          (At before base r (did is_wait ∷ seen) t)
          (run_native_engine w m)
          (λ (stats : ApplyStats) tr.
            At before base 17 (cut_seen stats.cutover_triggered seen) t tr)
  unfolding run_native_engine apply_phase call
  apply-At le =
      Triple-bind
        (ask_only-At connect_target (answered w m connect_target) 15 le (ground (arith)) refl refl)
        (λ _. Triple-bind (report-At _ _) (λ _.
          Triple-bind
            (ask_only-At connect_lag (answered w m connect_lag) 16 (ground (arith)) (ground (arith))
              refl refl)
            (λ _. record {
              at = λ tr a.
                  finished-At tr
                    (run_native_apply (w.apply_target tr) m.config.online (subscription_source w m)
                      (w.ticks tr))
                    (ground (arith)) a;
            })))
