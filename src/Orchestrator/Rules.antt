-- ===== src/Orchestrator/Rules.antt =====
-- Triples for actions, and how each primitive action moves the state of a legal run.
use pg_migrator.Base.{◌⊎◌, inl, inr, ◌≡◌, refl, Bool, true, false, if◌then◌else◌}
use pg_migrator.Error.{MigrationError}
use pg_migrator.Orchestrator.Trace.{
  Outcome, value, failed, waiting, Trace, Act, pure, fail, continue, ◌>>=◌,
}

-- what holds when an action ends: `Q` of its value, or `E` when it stops
abbrev pub Post {ℓ} :
    {A : Type ℓ} → (Trace → Type 0) → (A → Trace → Type 0) → Outcome A × Trace → Type 0
Post E Q (value a, tr) = Q a tr
Post E Q (failed e, tr) = E tr
Post E Q (waiting, tr) = E tr

-- from a trace with `P`, `m` ends with `Q`, or stops with `E`
pub record Triple {ℓ} {A : Type ℓ} (E : Trace → Type 0) (P : Trace → Type 0) (m : Act A)
    (Q : A → Trace → Type 0) : Type ℓ where
  pub at : (tr : Trace) → P tr → Post E Q (m tr)

module _ {ℓ} {A : Type ℓ} {E P : Trace → Type 0} where
  pub Triple-pure :
      {Q : A → Trace → Type 0} (a : A) → ((tr : Trace) → P tr → Q a tr) → Triple E P (pure a) Q
  unfolding pure
  Triple-pure a k = record { at = k }

  pub Triple-fail :
      {Q : A → Trace → Type 0} (e : MigrationError)
      → ((tr : Trace) → P tr → E tr)
      → Triple E P (fail {A = A} e) Q
  unfolding fail
  Triple-fail e k = record { at = k }

  pub Triple-if :
      {Q : A → Trace → Type 0} {m n : Act A} (b : Bool)
      → (b ≡ true → Triple E P m Q)
      → (b ≡ false → Triple E P n Q)
      → Triple E P (if b then m else n) Q
  Triple-if true km kn = km refl
  Triple-if false km kn = kn refl

module _ {ℓ} {A : Type ℓ} {E P : Trace → Type 0} {Q : A → Trace → Type 0} where
  pub Triple-from :
      {P' : Trace → Type 0} {m : Act A}
      → ((tr : Trace) → P tr → P' tr)
      → Triple E P' m Q
      → Triple E P m Q
  Triple-from k t = record { at = λ tr p. t.at tr (k tr p) }

  -- the state gives a fact that holds of no trace in particular
  pub Triple-given :
      {F : Type 0} {m : Act A} → ((tr : Trace) → P tr → F) → (F → Triple E P m Q) → Triple E P m Q
  Triple-given k t = record { at = λ tr p. (t (k tr p)).at tr p }

module _ {ℓ} {A : Type ℓ} {Q R : A → Trace → Type 0} where
  weaker :
      (E : Trace → Type 0) (o : Outcome A) (tr : Trace)
      → ((a : A) (tr : Trace) → Q a tr → R a tr)
      → Post E Q (o, tr)
      → Post E R (o, tr)
  weaker E (value a) tr k q = k a tr q
  weaker E (failed e) tr k q = q
  weaker E waiting tr k q = q

  pub Triple-to :
      {E P : Trace → Type 0} {m : Act A}
      → ((a : A) (tr : Trace) → Q a tr → R a tr)
      → Triple E P m Q
      → Triple E P m R
  Triple-to {E = E} {m = m} k t = record { at = λ tr p. weaker E (m tr).0 (m tr).1 k (t.at tr p) }

module _ {ℓ} {A : Type ℓ} {E P P' : Trace → Type 0} {Q : A → Trace → Type 0} where
  either :
      {m : Act A} (tr : Trace) → Triple E P m Q → Triple E P' m Q → P tr ⊎ P' tr → Post E Q (m tr)
  either tr s t (inl p) = s.at tr p
  either tr s t (inr p) = t.at tr p

  pub Triple-either :
      {m : Act A} → Triple E P m Q → Triple E P' m Q → Triple E (λ tr. P tr ⊎ P' tr) m Q
  Triple-either s t = record { at = λ tr p. either tr s t p }

module _ {ℓ κ} {A : Type ℓ} {B : Type κ} {E : Trace → Type 0} {Q : A → Trace → Type 0}
    {R : B → Trace → Type 0} where
  after :
      (f : A → Act B) (o : Outcome A) (tr : Trace)
      → Post E Q (o, tr)
      → ((a : A) → Triple E (Q a) (f a) R)
      → Post E R (continue o f tr)
  after f (value a) tr h k = (k a).at tr h
  after f (failed e) tr h k = h
  after f waiting tr h k = h

  pub Triple-bind :
      {P : Trace → Type 0} {m : Act A} {f : A → Act B}
      → Triple E P m Q
      → ((a : A) → Triple E (Q a) (f a) R)
      → Triple E P (m >>= f) R
  unfolding ◌>>=◌
  Triple-bind t k = record { at = λ tr p. after _ _ _ (t.at tr p) k }
