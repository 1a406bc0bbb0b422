-- ===== src/Verify/Report.antt =====
-- `TableCount` and `VerifyReport` (pg_dbmigrator/src/verify.rs).
use pg_migrator.Base.{Text, List, ℤ, int_eq, Bool, not, filter, is_empty, length}
use pg_migrator.Progress.{Message, verify_summary}

pub record TableCount : Type 0 where
  pub schema : Text
  pub table : Text
  pub source : ℤ
  pub target : ℤ

pub record VerifyReport : Type 0 where
  pub rows : List TableCount

unfoldable pub mismatches : VerifyReport → List TableCount
mismatches report = filter (λ r. not (int_eq r.source r.target)) report.rows

-- `VerifyReport::is_ok`
unfoldable pub all_match : VerifyReport → Bool
all_match report = is_empty (mismatches report)

-- the numbers of `summary_line`: the mismatches and the tables
unfoldable pub summary_line : VerifyReport → Message
summary_line report = verify_summary (length (mismatches report)) (length report.rows)
