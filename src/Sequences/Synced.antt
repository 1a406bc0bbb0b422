-- ===== src/Sequences/Synced.antt =====
-- Which values `apply_sequences_to_target` (pg_dbmigrator/src/sequences.rs) sets on the target.
use pg_migrator.Base.{ℕ, ℤ, Text, lit, List, [], ◌∷◌, ◌++◌, map, ◌≡◌, ◌≢◌, none, some}
use pg_migrator.Error.{Result, ok}
use pg_migrator.Sequences.{
  SourceSequence, Quoting, Statement, batch, query_applied, SeqSyncTarget, as_usize, int_text,
  value_or_zero,
}
use pg_migrator.Sequences.Effects.{setvals, accepted}

-- the sequences that have a value on the source, with it
abbrev pub valued : List SourceSequence → List (SourceSequence × ℤ)
valued [] = []
valued (s ∷ seqs) = elim s.last_value [ none ↦ valued seqs | some v ↦ (s, v) ∷ valued seqs ]

module _ (q : Quoting) (regclass : SourceSequence → Text) where
  -- The name of the sequence can be quoted, and `regclass` is the literal of it.
  abbrev pub IsQuoted : SourceSequence → Type 0
  IsQuoted s =
      (schema : Text) × (name : Text) × (q.ident s.schema ≡ ok schema)
      × (q.ident s.name ≡ ok name)
      × (q.literal (schema ++ (lit "." ++ name)) ≡ ok (regclass s))

  -- the statement that sets one sequence, with the value it is executed with
  abbrev pub set_one : SourceSequence × ℤ → Text × ℤ
  set_one (s, v) = (lit "SELECT setval(" ++ (regclass s ++ lit "::regclass, $1::bigint, true)"), v)

  -- A block's part for a sequence, which counts it where it was set; the warning that its failure
  -- is turned into names it by a label.
  abbrev pub part_of : SourceSequence × ℤ → Text → Text
  part_of (s, v) label =
      lit "  BEGIN\n    PERFORM setval("
      ++ (regclass s
          ++ (lit "::regclass, "
              ++ (int_text v
                  ++ (lit
                        "::bigint, true);\n    _applied := _applied + 1;\n  EXCEPTION WHEN OTHERS THEN\n    RAISE WARNING 'setval failed for "
                      ++ (label ++ lit ": %', SQLERRM;\n  END;\n")))))

  -- The text is a part for each sequence, in order, and then the end of the block.
  abbrev pub Performs : List (SourceSequence × ℤ) → Text → Type 0
  Performs [] text =
      text
      ≡ lit "  INSERT INTO _seq_sync_result VALUES (_applied);\nEND;\n$__pg_dbmigrator_seq_sync__$;"
  Performs (call ∷ calls) text =
      (label : Text) × (rest : Text) × (text ≡ part_of call label ++ rest) × Performs calls rest

  -- the text of a statement
  abbrev sql_of : SourceSequence → Text
  sql_of s = (set_one (s, value_or_zero s.last_value)).0

  -- What is asked of each sequence that has a value.
  abbrev pub IsReady : SourceSequence → Type 0
  IsReady s = s.last_value ≢ none → IsQuoted s

  -- the end of the block
  abbrev closing : Text
  closing =
      lit "  INSERT INTO _seq_sync_result VALUES (_applied);\nEND;\n$__pg_dbmigrator_seq_sync__$;"

  module _ (t : SeqSyncTarget) where
    -- One block was executed: its declarations and then a part for each sequence, and the result is
    -- what the target counted.
    abbrev pub OneBlock : List SourceSequence → List Statement × Result ℕ → Type 0
    OneBlock seqs r =
        (text : Text) × (applied : ℤ) × Performs (valued seqs) text
        × (let body =
              lit
                "CREATE TEMP TABLE IF NOT EXISTS _seq_sync_result (applied int);\nTRUNCATE _seq_sync_result;\nDO $__pg_dbmigrator_seq_sync__$\nDECLARE\n  _applied int := 0;\nBEGIN\n"
              ++ text in
            (t.batch_execute_sql [] body ≡ ok tt)
            × (t.query_batch_applied (batch body ∷ []) ≡ ok applied)
            × (r ≡ (query_applied ∷ batch body ∷ [], ok (as_usize applied))))

    -- Each sequence was set by one statement, in order, and the result counts the accepted ones.
    abbrev pub EachAlone : List SourceSequence → List Statement × Result ℕ → Type 0
    EachAlone seqs r =
        (setvals r.0 ≡ map set_one (valued seqs)) × (r.1 ≡ ok (accepted q t sql_of r.0))
