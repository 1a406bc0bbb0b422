-- ===== src/Verify/Agreement.antt =====
-- What a verification without mismatches says of each table (verify.rs).
use mathlib.Core.Path.{subst}
use pg_migrator.Base.{
  Text, lit, rsplit_once, ℤ, negsuc, Option, none, some, List, [], ◌∷◌, ◌++◌, ◌∙◌, ◌≡◌, ◌≢◌, refl,
  sym, ap, In, inl, inr, arith, Bool-cases, not, Bool, filter, int_eq, int_eq_iff,
}
use pg_migrator.Error.{Result, ok, err, Result-cases}
use pg_migrator.Config.{MigrationConfig}
use pg_migrator.Verify.Report.{TableCount, VerifyReport, mismatches}
use pg_migrator.Verify.Counts.{
  Counters, raced, target_count, is_missing, compared, count_split, count_table, count_all,
  selected, verify_row_counts,
}
use pg_migrator.Verify.Parallel.{verify_row_counts-sequential}

-- the query that counts a table, once its names are quoted
abbrev pub query : Text → Text → Text
query s t = lit "SELECT count(*) FROM " ++ (s ++ (lit "." ++ t))

-- The two servers were asked for the table and gave the same number.
pub record Agrees (c : Counters) (schema table : Text) : Type 0 where
  pub quoted_schema : Text
  pub quoted_table : Text
  pub number : ℤ
  pub schema_quoted : c.quote_ident schema ≡ ok quoted_schema
  pub table_quoted : c.quote_ident table ≡ ok quoted_table
  pub counted : c.count (query quoted_schema quoted_table) ≡ some (ok number, ok number)

abbrev differs : TableCount → Bool
differs row = not (int_eq row.source row.target)

same_numbers : (row : TableCount) → filter differs (row ∷ []) ≡ [] → row.source ≡ row.target
unfolding filter
same_numbers row h = (int_eq_iff row.source row.target).0 (ground (arith, h))

filter-append :
    (xs ys : List TableCount)
    → filter differs (xs ++ ys) ≡ []
    → (filter differs xs ≡ []) × (filter differs ys ≡ [])
unfolding filter
filter-append [] ys h = (refl, h)
filter-append (x ∷ xs) ys h = ground (arith, h, filter-append xs ys)

module _ (c : Counters)
    (natural : (q : Text) (target : Result ℤ) → c.count q ≢ some (ok (negsuc 0), target)) where
  compared-Agrees :
      (schema table s t : Text) (rows : List TableCount)
      → c.quote_ident schema ≡ ok s
      → c.quote_ident table ≡ ok t
      → (answer : Option (Result ℤ × Result ℤ)) → c.count (query s t) ≡ answer
      → compared c schema table answer ≡ ok rows
      → filter differs rows ≡ []
      → Agrees c schema table
  unfolding compared target_count
  compared-Agrees schema table s t rows qs qt none asked h same = absurd (ground (arith, h))
  compared-Agrees schema table s t rows qs qt (some (err e, y)) asked h same =
      absurd (ground (arith, h))
  compared-Agrees schema table s t rows qs qt (some (ok n, ok k)) asked h same =
      let row : TableCount = record { schema = schema; table = table; source = n; target = k } in
      let e : n ≡ k =
        same_numbers row (subst (λ l. filter differs l ≡ []) (ground (arith, h)) same) in
      record {
        quoted_schema = s;
        quoted_table = t;
        number = n;
        schema_quoted = qs;
        table_quoted = qt;
        counted = asked ∙ ap (λ z. some (ok n, ok z)) (sym e);
      }
  compared-Agrees schema table s t rows qs qt (some (ok n, err e)) asked h same =
      elim (Bool-cases (is_missing e)) [
        | inr other ↦ absurd (ground (arith, h, other))
        | inl found ↦
            let row : TableCount = record {
              schema = schema;
              table = table;
              source = n;
              target = negsuc 0;
            } in
            let z : n ≡ negsuc 0 =
              same_numbers row
                (subst (λ l. filter differs l ≡ []) (ground (arith, h, found)) same) in
            absurd (natural (query s t) (err e) (asked ∙ ap (λ z. some (ok z, err e)) z))
      ]

  count_split-Agrees :
      (schema table : Text) (rows : List TableCount)
      → count_split c (some (schema, table)) ≡ ok rows
      → filter differs rows ≡ []
      → Agrees c schema table
  unfolding count_split
  count_split-Agrees schema table rows h same = elim (Result-cases (c.quote_ident schema)) [
    | inr (e, k) ↦ absurd (ground (arith, h, k))
    | inl (s, qs) ↦ elim (Result-cases (c.quote_ident table)) [
      | inr (e, k) ↦ absurd (ground (arith, h, qs, k))
      | inl (t, qt) ↦
          compared-Agrees schema table s t rows qs qt (c.count (query s t)) refl
            (ground (arith, h, qs, qt)) same
    ]
  ]

  count_table-Agrees :
      (qt schema table : Text) (rows : List TableCount)
      → rsplit_once b'.' qt ≡ some (schema, table)
      → count_table c qt ≡ ok rows
      → filter differs rows ≡ []
      → Agrees c schema table
  unfolding count_table
  count_table-Agrees qt schema table rows split h same = elim (Bool-cases (c.is_cancelled qt)) [
    | inl found ↦ absurd (ground (arith, h, found))
    | inr other ↦
        count_split-Agrees schema table rows
          (ap (count_split c) (sym split) ∙ ground (arith, h, other)) same
  ]

  count_all-Agrees :
      (tables : List Text) (rows : List TableCount) (qt schema table : Text)
      → count_all c tables ≡ ok rows
      → filter differs rows ≡ []
      → In qt tables
      → rsplit_once b'.' qt ≡ some (schema, table)
      → Agrees c schema table
  unfolding count_all
  count_all-Agrees [] rows qt schema table h same i split = elim i [ ]
  count_all-Agrees (x ∷ tables) rows qt schema table h same i split =
      elim (Result-cases (count_table c x)) [
        | inr (e, k) ↦ absurd (ground (arith, h, k))
        | inl (row, k) ↦ elim (Result-cases (count_all c tables)) [
          | inr (e, u) ↦ absurd (ground (arith, h, k, u))
          | inl (more, u) ↦
              let (one, rest) =
                filter-append row more
                  (subst (λ l. filter differs l ≡ []) (ground (arith, h, k, u)) same) in
              elim i [
                | inl here ↦
                    count_table-Agrees qt schema table row split (ap (count_table c) here ∙ k) one
                | inr there ↦ count_all-Agrees tables more qt schema table u rest there split
              ]
        ]
      ]

  -- When counts are never -1 on the source and a verification succeeds without a mismatch, the two
  -- servers were asked for every selected table whose name has a dot and gave the same number: a
  -- table that is missing on the target is never taken for an empty one.
  pub verified_tables_agree :
      (cfg : MigrationConfig) (rows : List (Text × Text)) (r : VerifyReport)
      (qt schema table : Text)
      → raced c.list_tables ≡ ok rows
      → verify_row_counts c cfg ≡ ok r
      → mismatches r ≡ []
      → In qt (selected c cfg rows)
      → rsplit_once b'.' qt ≡ some (schema, table)
      → Agrees c schema table
  unfolding mismatches
  verified_tables_agree cfg rows r qt schema table listed h matched i split =
      count_all-Agrees (selected c cfg rows) r.rows qt schema table
        (verify_row_counts-sequential c cfg rows r listed h) matched i split
