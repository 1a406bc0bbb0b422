-- ===== src/Orchestrator/Moves.antt =====
-- How each primitive action of `Migrator` moves the state of a legal run.
use pg_migrator.Base.{◌≡◌, refl, ℕ, ◌≤◌, Bool, true, false, List, ◌∷◌, Text, arith, if◌then◌else◌}
use pg_migrator.Error.{Result, ok, err, is_ok}
use pg_migrator.Resume.Token.{StageSet, ResumeToken}
use pg_migrator.Progress.{MigrationStage, Message}
use pg_migrator.Orchestrator.Trace.{
  Outcome, Call, Entry, called, Trace, World, pure, fail, from_result, lift, ask, attempt, report,
}
use pg_migrator.Orchestrator.Setup.{Migrator, check_cancel, save_resume}
use pg_migrator.Orchestrator.Legal.{call_rank, superseded, needs_cutover, in_place, legal}
use pg_migrator.Orchestrator.Rules.{Post, Triple, Triple-to}
use pg_migrator.Orchestrator.State.{At, At-entry, At-see, At-later, At-forget}

-- what a stopped run still satisfies
abbrev pub Legal : StageSet → Trace → Type 0
Legal before tr = legal before tr ≡ true

Post-if {ℓ} :
    {A : Type ℓ} (E : Trace → Type 0) (Q : A → Trace → Type 0) (x y : Outcome A × Trace) (b : Bool)
    → Post E Q x
    → Post E Q y
    → Post E Q (if b then x else y)
Post-if E Q x y true hx hy = hx
Post-if E Q x y false hx hy = hy

module _ {before base : StageSet} {r : ℕ} {seen : List (Entry → Bool)} {t : ResumeToken} where
  pub report-At :
      (stage : MigrationStage) (message : Message)
      → Triple
          (Legal before)
          (At before base r seen t)
          (report stage message)
          (λ _. At before base r seen t)
  unfolding report in_place
  report-At stage message = record {
    at = λ tr a. At-entry _ r a (ground (arith)) (ground (arith)) refl refl;
  }

  pub save-At :
      (w : World) (m : Migrator) (path : Text)
      → Triple
          (Legal before)
          (At before base r seen t)
          (save_resume w m t path)
          (λ _. At before base r seen t)
  unfolding save_resume in_place
  save-At w m path = record {
    at = λ tr a. At-entry _ r a (ground (arith)) (ground (arith)) refl a.is_covered;
  }

  pub check_cancel-At :
      (w : World) (m : Migrator)
      → Triple
          (Legal before)
          (At before base r seen t)
          (check_cancel w m)
          (λ _. At before base r seen t)
  unfolding check_cancel fail pure
  check_cancel-At w m = record { at = λ tr a. Post-if _ _ _ _ (w.is_cancelled tr) a.is_legal a }

  -- a call that is in its place, not superseded, and needs no cutover
  called-At :
      (c : Call) (b : Bool) (tr : Trace)
      → r ≤ call_rank c
      → superseded before c ≡ false
      → needs_cutover c ≡ false
      → At before base r seen t tr
      → At before base (call_rank c) seen t (called c b ∷ tr)
  unfolding in_place
  called-At c b tr le fresh free a =
      At-entry _ (call_rank c) a le (ground (arith)) (ground (arith, a.reached)) (ground (arith))

-- the state after a call whose error is caught: with the new test if it succeeded
abbrev pub Tried {ℓ} :
    {A : Type ℓ} → (Trace → Type 0) → (Trace → Type 0) → Result A → Trace → Type 0
Tried succeeded otherwise (ok a) tr = succeeded tr
Tried succeeded otherwise (err e) tr = otherwise tr

module _ {ℓ} {A : Type ℓ} {before base : StageSet} {r : ℕ} {seen : List (Entry → Bool)}
    {t : ResumeToken} (p : Entry → Bool) (c : Call) (f : Trace → Result A)
    (passes : p (called c true) ≡ true) (below : r ≤ call_rank c)
    (fresh : superseded before c ≡ false) (free : needs_cutover c ≡ false) where
  asked-At :
      (tr : Trace) (o : Result A)
      → At before base r seen t tr
      → Post
          (Legal before)
          (λ _. At before base (call_rank c) (p ∷ seen) t)
          (from_result o, called c (is_ok o) ∷ tr)
  asked-At tr (ok a) h = At-see p (called c true) passes (called-At c true tr below fresh free h)
  asked-At tr (err e) h = (called-At c false tr below fresh free h).is_legal

  pub ask-At :
      Triple
        (Legal before)
        (At before base r seen t)
        (ask c f)
        (λ _. At before base (call_rank c) (p ∷ seen) t)
  unfolding ask
  ask-At = record { at = λ tr h. asked-At tr (f tr) h }

  caught-At :
      (tr : Trace) (o : Result A)
      → At before base r seen t tr
      → Post
          (Legal before)
          (Tried (At before base (call_rank c) (p ∷ seen) t) (At before base (call_rank c) seen t))
          (attempt (lift o) (called c (is_ok o) ∷ tr))
  unfolding attempt lift
  caught-At tr (ok a) h = At-see p (called c true) passes (called-At c true tr below fresh free h)
  caught-At tr (err e) h = called-At c false tr below fresh free h

  pub attempt-At :
      Triple
        (Legal before)
        (At before base r seen t)
        (attempt (ask c f))
        (Tried (At before base (call_rank c) (p ∷ seen) t) (At before base (call_rank c) seen t))
  unfolding ask attempt lift
  attempt-At = record { at = λ tr h. caught-At tr (f tr) h }

module _ {ℓ} {A : Type ℓ} {before base : StageSet} {r : ℕ} {seen : List (Entry → Bool)}
    {t : ResumeToken} where
  -- the same for a call that nothing later asks about, up to a later place
  pub ask_only-At :
      (c : Call) (f : Trace → Result A) (r' : ℕ)
      → r ≤ call_rank c
      → call_rank c ≤ r'
      → superseded before c ≡ false
      → needs_cutover c ≡ false
      → Triple
          (Legal before)
          (At before base r seen t)
          (ask c f)
          (λ _ tr. At before base r' seen t tr)
  ask_only-At c f r' below above fresh free =
      Triple-to (λ _ tr a. At-later r' (At-forget a) above)
        (ask-At (λ _. true) c f refl below fresh free)
