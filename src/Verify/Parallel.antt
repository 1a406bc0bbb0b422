-- ===== src/Verify/Parallel.antt =====
-- Counting in workers agrees with counting one table after the other (verify.rs).
use pg_migrator.Base.{
  ◌∙◌, ℕ, zero, suc, ◌<◌, ◌≤◌, Text, length, take, List, [], ◌∷◌, ◌++◌, append_assoc, ◌≡◌, refl, ap,
  inl, inr, arith,
}
use pg_migrator.Error.{Result-cases, ok}
use pg_migrator.Config.{MigrationConfig}
use pg_migrator.Verify.Report.{TableCount, VerifyReport}
use pg_migrator.Verify.Counts.{
  Counters, raced, skip, chunks, chunk_size, count_table, count_all, worker, join_workers, selected,
  count_in_workers, verify_row_counts,
}

take-skip : {A : Type 0} (n : ℕ) (xs : List A) → take n xs ++ skip n xs ≡ xs
take-skip zero xs = refl
take-skip (suc n) [] = refl
take-skip (suc n) (x ∷ xs) = ap (λ rest. x ∷ rest) (take-skip n xs)

skip-length :
    {A : Type 0} (n : ℕ) (x : A) (xs : List A) → 0 < n → length (skip n (x ∷ xs)) ≤ length xs
skip-length zero x xs h = ground arith
skip-length (suc zero) x xs h = ground arith
skip-length (suc (suc n)) x [] h = ground arith
skip-length (suc (suc n)) x (y ∷ xs) h = ground (arith, skip-length (suc n) y xs)

module _ (c : Counters) where
  count_all-append :
      (xs ys : List Text) (rows rest : List TableCount)
      → count_all c xs ≡ ok rows
      → count_all c ys ≡ ok rest
      → count_all c (xs ++ ys) ≡ ok (rows ++ rest)
  unfolding count_all
  count_all-append [] ys rows rest h k = ground arith
  count_all-append (x ∷ xs) ys rows rest h k = elim (Result-cases (count_table c x)) [
    | inr (e, t) ↦ absurd (ground (arith, h, t))
    | inl (row, t) ↦ elim (Result-cases (count_all c xs)) [
      | inr (e, u) ↦ absurd (ground (arith, h, t, u))
      | inl (more, u) ↦
          rw (t, count_all-append xs ys more rest u k) ground
            (arith, h, t, u, append_assoc row more rest)
    ]
  ]

abbrev concat : {A : Type 0} → List (List A) → List A
concat [] = []
concat (xs ∷ xss) = xs ++ concat xss

-- the fuel is enough, and no element is lost or counted twice
chunks-concat :
    {A : Type 0} (fuel size : ℕ) (xs : List A)
    → 0 < size
    → length xs ≤ fuel
    → concat (chunks fuel size xs) ≡ xs
unfolding chunks
chunks-concat zero size [] h le = refl
chunks-concat zero size (x ∷ xs) h le = absurd (omega (arith, le))
chunks-concat (suc fuel) size [] h le = refl
chunks-concat (suc fuel) size (x ∷ xs) h le =
    ap (λ rest. take size (x ∷ xs) ++ rest)
      (chunks-concat fuel size (skip size (x ∷ xs)) h (omega (arith, le, skip-length size x xs h)))
    ∙ take-skip size (x ∷ xs)

chunk_size-positive : (jobs len : ℕ) → 0 < chunk_size jobs len
unfolding chunk_size
chunk_size-positive jobs len = omega arith

module _ (c : Counters) where
  join-concat :
      (slices : List (List Text)) (out : List TableCount)
      → join_workers c slices ≡ ok out
      → count_all c (concat slices) ≡ ok out
  unfolding join_workers worker count_all
  join-concat [] out h = h
  join-concat (slice ∷ slices) out h = elim (Result-cases (worker c slice)) [
    | inr (e, t) ↦ absurd (ground (arith, h, t))
    | inl (rows, t) ↦ elim (Result-cases (join_workers c slices)) [
      | inr (e, u) ↦ absurd (ground (arith, h, t, u))
      | inl (rest, u) ↦
          count_all-append c slice (concat slices) rows rest (worker-count slice rows t)
            (join-concat slices rest u)
          ∙ ground (arith, h, t, u)
    ]
  ]
    where
      worker-count :
          (slice : List Text) (rows : List TableCount)
          → worker c slice ≡ ok rows
          → count_all c slice ≡ ok rows
      worker-count slice rows t = elim (Result-cases (raced (c.connect_pair slice))) [
        | inl (u, k) ↦ ground (arith, t, k)
        | inr (e, k) ↦ absurd (ground (arith, t, k))
      ]

  joined :
      (cfg : MigrationConfig) (rows : List (Text × Text)) (r : VerifyReport)
      → raced c.list_tables ≡ ok rows
      → verify_row_counts c cfg ≡ ok r
      → count_in_workers c cfg.jobs (selected c cfg rows) ≡ ok r.rows
  unfolding verify_row_counts
  joined cfg rows r listed h = elim (Result-cases (raced c.connect)) [
    | inr (e, k) ↦ absurd (ground (arith, h, k))
    | inl (done, k) ↦ elim (Result-cases (count_in_workers c cfg.jobs (selected c cfg rows))) [
      | inr (e, u) ↦ absurd (ground (arith, h, k, listed, u))
      | inl (out, u) ↦ ground (arith, h, k, listed, u)
    ]
  ]

  -- A verification that succeeds has counted every selected table exactly once: its rows are those
  -- of counting the tables one after the other, however they were shared out among the workers.
  pub verify_row_counts-sequential :
      (cfg : MigrationConfig) (rows : List (Text × Text)) (r : VerifyReport)
      → raced c.list_tables ≡ ok rows
      → verify_row_counts c cfg ≡ ok r
      → count_all c (selected c cfg rows) ≡ ok r.rows
  unfolding count_in_workers
  verify_row_counts-sequential cfg rows r listed h =
      let tables = selected c cfg rows in
      let size = chunk_size cfg.jobs (length tables) in
      rw⁻¹
        (chunks-concat (length tables) size tables (chunk_size-positive cfg.jobs (length tables))
          (omega arith))
        (join-concat (chunks (length tables) size tables) r.rows (joined cfg rows r listed h))
