-- ===== src/Sequences/Effects.antt =====
-- What `apply_sequences_to_target` (pg_dbmigrator/src/sequences.rs) executes on the target and
-- counts.
use pg_migrator.Base.{
  All, ◌∙◌, ap, ℕ, ◌+◌, ℤ, Text, List, [], ◌∷◌, ◌++◌, map, append_assoc, append-nil, ◌≡◌, ◌⊎◌, refl,
  arith, inl, inr,
}
use pg_migrator.Error.{MigrationError, Result, ok, err, ◌>>=◌}
use pg_migrator.Sequences.{
  SourceSequence, Quoting, Statement, setval, batch, query_applied, SeqSyncTarget, as_usize,
  value_or_zero, counted, advanced, build_setval_sql, build_batch_setval_sql, apply_single,
  apply_individually, apply_batch, after_batch, or_individually, apply_actionable,
  apply_sequences_to_target,
}

-- the values that were set one by one, oldest first
abbrev pub setvals : List Statement → List (Text × ℤ)
setvals [] = []
setvals (setval sql value ∷ log) = setvals log ++ (sql, value) ∷ []
setvals (batch sql ∷ log) = setvals log
setvals (query_applied ∷ log) = setvals log

module _ (q : Quoting) (t : SeqSyncTarget) (sql : SourceSequence → Text) where
  -- a sequence whose statement can be written
  abbrev pub Written : SourceSequence → Type 0
  Written s = build_setval_sql q s.schema s.name ≡ ok (sql s)

  -- how many of the values that a log sets one by one the target accepted
  abbrev pub accepted : List Statement → ℕ
  accepted [] = 0
  accepted (setval sql value ∷ log) = counted (t.execute_setval log sql value) + accepted log
  accepted (batch sql ∷ log) = accepted log
  accepted (query_applied ∷ log) = accepted log

  -- a sequence's statement and its value on the source
  abbrev pub request : SourceSequence → Text × ℤ
  request s = (sql s, value_or_zero s.last_value)

  -- what setting sequences one by one after a log leads to
  abbrev Individually :
      ℕ → List Statement → List SourceSequence → List Statement × Result ℕ → Type 0
  Individually applied log seqs r =
      (n : ℕ) × (r.1 ≡ ok n)
      × (setvals r.0 ≡ setvals log ++ map request seqs)
      × (n + accepted log ≡ applied + accepted r.0)

  abbrev value : SourceSequence → ℤ
  value s = value_or_zero s.last_value

  abbrev gain : List Statement → SourceSequence → ℕ
  gain log s = counted (t.execute_setval log (sql s) (value s))

  single_lem :
      (log : List Statement) (s : SourceSequence)
      → Written s
      → apply_single q t log s ≡ (setval (sql s) (value s) ∷ log, ok (gain log s))
  unfolding apply_single
  single_lem log s w = rw (w, apply_single)

  one_by_one :
      (applied : ℕ) (log : List Statement) (s : SourceSequence) (seqs : List SourceSequence)
      → Written s
      → apply_individually q t applied log (s ∷ seqs)
        ≡ apply_individually q t (applied + gain log s) (setval (sql s) (value s) ∷ log) seqs
  unfolding apply_individually
  one_by_one applied log s seqs w =
      ap
        (λ (x : List Statement × Result ℕ).
          let (log', r) = x in
          elim r [ err e ↦ (log', err e) | ok n ↦ apply_individually q t (applied + n) log' seqs ])
        (single_lem log s w)

  individually :
      (applied : ℕ) (log : List Statement) (seqs : List SourceSequence)
      → All Written seqs
      → Individually applied log seqs (apply_individually q t applied log seqs)
  individually applied log [] w = unfold apply_individually in (applied, refl, rw append-nil, refl)
  individually applied log (s ∷ seqs) w =
      let (n, a, b, c) =
        individually (applied + gain log s) (setval (sql s) (value s) ∷ log) seqs w.1 in
      rw (one_by_one applied log s seqs w.0)
        (n, a, b ∙ append_assoc (setvals log) (request s ∷ []) (map request seqs), omega (arith, c))

  -- the count of a block that was executed
  abbrev pub Batched : List SourceSequence → List Statement × Result ℕ → Type 0
  Batched seqs r =
      (body : Text) × (applied : ℤ) × (build_batch_setval_sql q seqs ≡ ok body)
      × (t.batch_execute_sql [] body ≡ ok tt)
      × (t.query_batch_applied (batch body ∷ []) ≡ ok applied)
      × (r ≡ (query_applied ∷ batch body ∷ [], ok (as_usize applied)))

  -- every sequence was set once, in order, and the accepted ones were counted
  abbrev pub OneByOne : List SourceSequence → List Statement × Result ℕ → Type 0
  OneByOne seqs r = (setvals r.0 ≡ map request seqs) × (r.1 ≡ ok (accepted r.0))

  -- the log of a block without setvals
  abbrev Quietly : List Statement → Type 0
  Quietly log = (setvals log ≡ []) × (accepted log ≡ 0)

  -- a block that was executed and counted, or an error
  abbrev Tried : List SourceSequence → List Statement × Result ℕ → Type 0
  Tried seqs r = Batched seqs r ⊎ ((e : MigrationError) × (r.1 ≡ err e) × Quietly r.0)

  queried :
      (seqs : List SourceSequence) (body : Text) (o : Result ℤ)
      → build_batch_setval_sql q seqs ≡ ok body
      → t.batch_execute_sql [] body ≡ ok tt
      → t.query_batch_applied (batch body ∷ []) ≡ o
      → Tried seqs (query_applied ∷ batch body ∷ [], (o >>= λ applied. ok (as_usize applied)))
  queried seqs body (ok applied) b x h = inl (body, applied, b, x, h, refl)
  queried seqs body (err e) b x h = inr (e, refl, (refl, refl))

  executed :
      (seqs : List SourceSequence) (body : Text) (r : Result (Unit {0}))
      → build_batch_setval_sql q seqs ≡ ok body
      → t.batch_execute_sql [] body ≡ r
      → Tried seqs (after_batch q t [] body r)
  unfolding after_batch
  executed seqs body (ok _) b x =
      queried seqs body (t.query_batch_applied (batch body ∷ [])) b x refl
  executed seqs body (err e) b x = inr (e, refl, (refl, refl))

  built :
      (seqs : List SourceSequence) (o : Result Text)
      → build_batch_setval_sql q seqs ≡ o
      → Tried seqs (elim o [
        | err e ↦ ([], err e)
        | ok body ↦ after_batch q t [] body (t.batch_execute_sql [] body)
      ])
  built seqs (ok body) b = executed seqs body (t.batch_execute_sql [] body) b refl
  built seqs (err e) b = inr (e, refl, (refl, refl))

  batch_lem : (seqs : List SourceSequence) → Tried seqs (apply_batch q t [] seqs)
  unfolding apply_batch
  batch_lem seqs = built seqs (build_batch_setval_sql q seqs) refl

  fallback :
      (seqs : List SourceSequence) (log : List Statement)
      → All Written seqs
      → Quietly log
      → OneByOne seqs (apply_individually q t 0 log seqs)
  fallback seqs log w h =
      let (n, a, b, c) = individually 0 log seqs w in
      ((rw (h.0) at b), (a ∙ ap ok (omega (arith, c, h.1))))

  abbrev pub Synced : List SourceSequence → List Statement × Result ℕ → Type 0
  Synced seqs r = Batched seqs r ⊎ OneByOne seqs r

  or_lem :
      (seqs : List SourceSequence) (r : List Statement × Result ℕ)
      → All Written seqs
      → Tried seqs r
      → Synced seqs (or_individually q t seqs r)
  unfolding or_individually
  or_lem seqs (log, ok applied) w (inl h) = inl h
  or_lem seqs (log, ok applied) w (inr h) = absurd (cc (h.1))
  or_lem seqs (log, err e) w (inl h) = absurd (cc (h.5))
  or_lem seqs (log, err e) w (inr h) = inr (fallback seqs log w h.2)

  actionable_lem :
      (seqs : List SourceSequence) → All Written seqs → Synced seqs (apply_actionable q t seqs)
  unfolding apply_actionable
  actionable_lem [] w = inr (refl, refl)
  actionable_lem (s ∷ []) w = rw (single_lem [] s w.0) (inr (refl, ap ok (omega arith)))
  actionable_lem (s ∷ next ∷ seqs) w =
      or_lem (s ∷ next ∷ seqs) (apply_batch q t [] (s ∷ next ∷ seqs)) w
        (batch_lem (s ∷ next ∷ seqs))

  -- the same of the sequences that are kept
  pub advanced_lem :
      (seqs : List SourceSequence)
      → All Written (advanced seqs)
      → Synced (advanced seqs) (apply_sequences_to_target q t seqs)
  unfolding apply_sequences_to_target
  advanced_lem seqs w = actionable_lem (advanced seqs) w
