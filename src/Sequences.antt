-- ===== src/Sequences.antt =====
-- pg_dbmigrator/src/sequences.rs: the sequences are advanced on the target at cutover. The target's
-- answers and the quoting of pg_walstream are parameters; a run is the log of what was executed on
-- the target and a result.
pub mod Effects
pub mod Synced
use pg_migrator.Base.{
  ◌-◌, ◌^◌, ◌==◌, suc, ℕ, ◌+◌, ℤ, pos, negsuc, Text, lit, to_text, is_empty, filter, is_some,
  Option, none, some, List, [], ◌∷◌, ◌++◌, if◌then◌else◌,
}
use pg_migrator.Error.{Result, ok, err, ◌>>=◌, ◌>>◌}

pub record SourceSequence : Type 0 where
  pub schema : Text
  pub name : Text
  pub last_value : Option ℤ

-- `quote_ident` and `quote_literal`
pub record Quoting : Type 0 where
  pub ident : Text → Result Text
  pub literal : Text → Result Text

-- What is executed on the target.
pub data Statement : Type 0 where
  setval : Text → ℤ → Statement
  batch : Text → Statement
  query_applied : Statement

-- `SeqSyncTarget`, by what has been executed so far, newest first; the count is an i32.
pub record SeqSyncTarget : Type 0 where
  pub execute_setval : List Statement → Text → ℤ → Result ℕ
  pub batch_execute_sql : List Statement → Text → Result (Unit {0})
  pub query_batch_applied : List Statement → Result ℤ

-- `applied as usize`
unfoldable pub as_usize : ℤ → ℕ
as_usize (pos n) = n
as_usize (negsuc n) = 2 ^ 64 - suc n

-- `seq.last_value.unwrap_or(0)`
unfoldable pub value_or_zero : Option ℤ → ℤ
value_or_zero none = pos 0
value_or_zero (some v) = v

-- an integer in decimal
unfoldable pub int_text : ℤ → Text
int_text (pos n) = to_text n
int_text (negsuc n) = lit "-" ++ to_text (suc n)

-- `s.replace(c, r)` for a character
unfoldable pub replace_char : ℕ → Text → Text → Text
replace_char c r [] = []
replace_char c r (d ∷ s) = (if d == c then r else d ∷ []) ++ replace_char c r s

-- one `setval` whose failure is only logged: 1 where it succeeded
abbrev pub counted : Result ℕ → ℕ
counted (ok n) = 1
counted (err e) = 0

-- the sequences that have been advanced on the source
unfoldable pub advanced : List SourceSequence → List SourceSequence
advanced seqs = filter (λ (s : SourceSequence). is_some s.last_value) seqs

module _ (q : Quoting) where
  unfoldable pub qualified_name : Text → Text → Result Text
  qualified_name schema name = do s ← q.ident schema; n ← q.ident name; ok (s ++ (lit "." ++ n))

  unfoldable pub build_setval_sql : Text → Text → Result Text
  build_setval_sql schema name = do
    name ← qualified_name schema name
    literal ← q.literal name
    ok (lit "SELECT setval(" ++ (literal ++ lit "::regclass, $1::bigint, true)"))

  -- the part of the block for one sequence
  unfoldable pub batch_part : SourceSequence → Result Text
  batch_part seq = do
    name ← qualified_name seq.schema seq.name
    literal ← q.literal name
    ok (
        lit "  BEGIN\n    PERFORM setval("
        ++ (literal
            ++ (lit "::regclass, "
                ++ (int_text (value_or_zero seq.last_value)
                    ++ (lit
                          "::bigint, true);\n    _applied := _applied + 1;\n  EXCEPTION WHEN OTHERS THEN\n    RAISE WARNING 'setval failed for "
                        ++ (replace_char b'%' (lit "%%") (replace_char 39 (39 ∷ 39 ∷ []) name)
                            ++ lit ": %', SQLERRM;\n  END;\n"))))))

  unfoldable pub batch_parts : List SourceSequence → Result Text
  batch_parts [] = ok []
  batch_parts (seq ∷ seqs) = do part ← batch_part seq; parts ← batch_parts seqs; ok (part ++ parts)

  unfoldable pub build_batch_setval_sql : List SourceSequence → Result Text
  build_batch_setval_sql seqs = do
    body ← batch_parts seqs
    ok (
        lit
          "CREATE TEMP TABLE IF NOT EXISTS _seq_sync_result (applied int);\nTRUNCATE _seq_sync_result;\nDO $__pg_dbmigrator_seq_sync__$\nDECLARE\n  _applied int := 0;\nBEGIN\n"
        ++ (body
            ++ lit
                "  INSERT INTO _seq_sync_result VALUES (_applied);\nEND;\n$__pg_dbmigrator_seq_sync__$;"))

  module _ (t : SeqSyncTarget) where
    unfoldable pub apply_single : List Statement → SourceSequence → List Statement × Result ℕ
    apply_single log seq = elim (build_setval_sql seq.schema seq.name) [
      | err e ↦ (log, err e)
      | ok sql ↦
          let value = value_or_zero seq.last_value in
          (setval sql value ∷ log, ok (counted (t.execute_setval log sql value)))
    ]

    unfoldable pub apply_individually :
        ℕ → List Statement → List SourceSequence → List Statement × Result ℕ
    apply_individually applied log [] = (log, ok applied)
    apply_individually applied log (seq ∷ seqs) =
        let (log', r) = apply_single log seq in
        elim r [ err e ↦ (log', err e) | ok n ↦ apply_individually (applied + n) log' seqs ]

    -- after the block has been executed
    unfoldable pub after_batch :
        List Statement → Text → Result (Unit {0}) → List Statement × Result ℕ
    after_batch log sql (err e) = (batch sql ∷ log, err e)
    after_batch log sql (ok _) = (
      query_applied ∷ batch sql ∷ log,
      (t.query_batch_applied (batch sql ∷ log) >>= λ applied. ok (as_usize applied)),
    )

    unfoldable pub apply_batch : List Statement → List SourceSequence → List Statement × Result ℕ
    apply_batch log seqs = elim (build_batch_setval_sql seqs) [
      | err e ↦ (log, err e)
      | ok sql ↦ after_batch log sql (t.batch_execute_sql log sql)
    ]

    -- one statement at a time where the block failed
    unfoldable pub or_individually :
        List SourceSequence → List Statement × Result ℕ → List Statement × Result ℕ
    or_individually seqs (log, ok applied) = (log, ok applied)
    or_individually seqs (log, err e) = apply_individually 0 log seqs

    unfoldable pub apply_actionable : List SourceSequence → List Statement × Result ℕ
    apply_actionable [] = ([], ok 0)
    apply_actionable (seq ∷ []) = apply_single [] seq
    apply_actionable (seq ∷ next ∷ seqs) =
        or_individually (seq ∷ next ∷ seqs) (apply_batch [] (seq ∷ next ∷ seqs))

    unfoldable pub apply_sequences_to_target : List SourceSequence → List Statement × Result ℕ
    apply_sequences_to_target seqs = apply_actionable (advanced seqs)

-- What `sync_sequences` asks of the two servers; a row is a sequence.
pub record SyncServers : Type 0 where
  pub connect_source : Result (Unit {0})
  pub connect_target : Result (Unit {0})
  pub user_sequences : Result (List SourceSequence)
  pub sequences_in : List Text → Result (List SourceSequence)
  pub quoting : Quoting
  pub target : SeqSyncTarget

unfoldable pub collect_source_sequences : SyncServers → List Text → Result (List SourceSequence)
collect_source_sequences s schema_filter =
    if is_empty schema_filter then s.user_sequences else s.sequences_in schema_filter

unfoldable pub sync_sequences : SyncServers → List Text → Result ℕ
sync_sequences s schema_filter = do
  s.connect_source
  s.connect_target
  seqs ← collect_source_sequences s schema_filter
  (apply_sequences_to_target s.quoting s.target seqs).1
