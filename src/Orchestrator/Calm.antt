-- ===== src/Orchestrator/Calm.antt =====
-- Actions that keep a property of traces, one rule for each way to build an action. The property is
-- kept by every entry but the calls of pg_dump, of pg_restore and of the direct copy.
use pg_migrator.Orchestrator.Rules.{Post, Triple}
use pg_migrator.Base.{Text, ◌∷◌, Bool, true, false, if◌then◌else◌, ◌≡◌, refl}
use pg_migrator.Error.{Result, MigrationError}
use pg_migrator.Progress.{MigrationStage, Message}
use pg_migrator.Resume.Token.{ResumeToken}
use pg_migrator.Orchestrator.Trace.{
  Call, pg_dump, pg_restore, split_copy, Entry, called, Trace, World, Outcome, value, failed,
  waiting, Act, pure, fail, lift, ask, attempt, continue, ◌>>=◌, report,
}
use pg_migrator.Orchestrator.Setup.{Migrator, check_cancel, save_resume}

-- a call other than the three that move data
abbrev pub is_other : Call → Bool
is_other (pg_dump _) = false
is_other (pg_restore _) = false
is_other (split_copy _ _ _) = false
is_other _ = true

abbrev pub is_calm : Entry → Bool
is_calm (called c _) = is_other c
is_calm _ = true

module _ (K : Trace → Type 0) where
  pub record Keeps {ℓ} {A : Type ℓ} (m : Act A) : Type ℓ where
    pub at : (tr : Trace) → K tr → K (m tr).1

-- what the rules ask of the property
abbrev pub Closed : (Trace → Type 0) → Type 0
Closed K = (e : Entry) (tr : Trace) → is_calm e ≡ true → K tr → K (e ∷ tr)

module _ {ℓ} {A : Type ℓ} {K : Trace → Type 0} where
  pub Keeps-pure : (a : A) → Keeps K (pure a)
  unfolding pure
  Keeps-pure a = record { at = λ tr k. k }

  pub Keeps-fail : (e : MigrationError) → Keeps K (fail {A = A} e)
  unfolding fail
  Keeps-fail e = record { at = λ tr k. k }

  pub Keeps-lift : (r : Result A) → Keeps K (lift r)
  unfolding lift
  Keeps-lift r = record { at = λ tr k. k }

  pub Keeps-if : {m n : Act A} (b : Bool) → Keeps K m → Keeps K n → Keeps K (if b then m else n)
  Keeps-if true km kn = km
  Keeps-if false km kn = kn

  pub Keeps-ask :
      (closed : Closed K) (c : Call) (f : Trace → Result A) → is_other c ≡ true → Keeps K (ask c f)
  unfolding ask
  Keeps-ask closed c f h = record { at = λ tr k. closed _ tr h k }

  pub Keeps-attempt : {m : Act A} → Keeps K m → Keeps K (attempt m)
  unfolding attempt
  Keeps-attempt km = record { at = λ tr k. km.at tr k }

module _ {ℓ κ} {A : Type ℓ} {B : Type κ} {K : Trace → Type 0} where
  continued :
      (f : A → Act B) (o : Outcome A) (tr : Trace)
      → K tr
      → ((a : A) → Keeps K (f a))
      → K (continue o f tr).1
  continued f (value a) tr k kf = (kf a).at tr k
  continued f (failed e) tr k kf = k
  continued f waiting tr k kf = k

  pub Keeps-bind :
      {m : Act A} {f : A → Act B} → Keeps K m → ((a : A) → Keeps K (f a)) → Keeps K (m >>= f)
  unfolding ◌>>=◌
  Keeps-bind {m = m} {f = f} km kf = record {
    at = λ tr k. continued f (m tr).0 (m tr).1 (km.at tr k) kf;
  }

module _ {K : Trace → Type 0} (closed : Closed K) where
  pub Keeps-report : (stage : MigrationStage) (message : Message) → Keeps K (report stage message)
  unfolding report
  Keeps-report stage message = record { at = λ tr k. closed _ tr refl k }

  pub Keeps-save :
      (w : World) (m : Migrator) (token : ResumeToken) (path : Text)
      → Keeps K (save_resume w m token path)
  unfolding save_resume
  Keeps-save w m token path = record { at = λ tr k. closed _ tr refl k }

cancel_keeps :
    (K : Trace → Type 0) (tr : Trace) (b : Bool)
    → K tr
    → K (if b then fail {A = Unit {0}} MigrationError.cancelled tr else pure tt tr).1
unfolding fail pure
cancel_keeps K past true k = k
cancel_keeps K past false k = k

pub Keeps-check_cancel :
    {K : Trace → Type 0} (w : World) (m : Migrator) → Keeps K (check_cancel w m)
unfolding check_cancel
Keeps-check_cancel {K = K} w m = record { at = λ tr k. cancel_keeps K tr (w.is_cancelled tr) k }

module _ {ℓ} {A : Type ℓ} {E K : Trace → Type 0} where
  stops :
      (o : Outcome A) (past : Trace)
      → ((past : Trace) → K past → E past)
      → K past
      → Post E (λ _. K) (o, past)
  stops (value a) past weaken k = k
  stops (failed e) past weaken k = weaken past k
  stops waiting past weaken k = weaken past k

  -- a step that keeps the property, in a triple that asks less of a failure
  pub Keeps-Triple :
      {m : Act A} → ((past : Trace) → K past → E past) → Keeps K m → Triple E K m (λ _. K)
  Keeps-Triple {m = m} weaken k = record { at = λ tr h. stops (m tr).0 (m tr).1 weaken (k.at tr h) }

module _ {ℓ} {A : Type ℓ} (K : Trace → Type 0) where
  pub kept_back : (o : Outcome A) (past : Trace) → Post K (λ _. K) (o, past) → K past
  kept_back (value a) past k = k
  kept_back (failed e) past k = k
  kept_back waiting past k = k

  pub Triple-Keeps : {m : Act A} → Triple K K m (λ _. K) → Keeps K m
  Triple-Keeps {m = m} t = record { at = λ tr h. kept_back (m tr).0 (m tr).1 (t.at tr h) }
