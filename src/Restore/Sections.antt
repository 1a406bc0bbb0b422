-- ===== src/Restore/Sections.antt =====
-- The command line and the result of a restore call (restore.rs).
use pg_migrator.Base.{ap, lit, text_eq_iff, true, Text, some, Bool, false, ◌≡◌, ◌↔◌, ◌⊎◌, arith}
use pg_migrator.Error.{external_command, MigrationError, Result, ok, err}
use pg_migrator.Dump.{Invocation}
use pg_migrator.Restore.Command.{
  only_data, post_data, RestoreRequest, build_pg_restore_args, is_restore_partial_failure,
  restore_invocation, tolerate, run_pg_restore,
}

-- A call that restores only the data or only the post-data section has the command line of a call
-- that was not asked to clean: it never drops what an earlier section loaded.
pub later_sections_never_clean :
    (is_dir : Text → Bool) (req : RestoreRequest)
    → (req.section ≡ some only_data) ⊎ (req.section ≡ some post_data)
    → build_pg_restore_args is_dir req ≡ build_pg_restore_args is_dir (record req { clean = false })
unfolding build_pg_restore_args
later_sections_never_clean is_dir req h = ground arith

-- `pg_restore` itself failed.
abbrev pub IsOfPgRestore : MigrationError → Type 0
IsOfPgRestore e = (detail : Text) × (e ≡ external_command (lit "pg_restore") detail)

is_restore_partial_failure_iff :
    (e : MigrationError) → (is_restore_partial_failure e ≡ true) ↔ IsOfPgRestore e
unfolding is_restore_partial_failure
is_restore_partial_failure_iff (external_command command detail) =
    let same = text_eq_iff command (lit "pg_restore") in
    (
      (λ h. (detail, ap (λ c. external_command c detail) (same.0 h))),
      (λ (d, e). same.1 (ground (arith, e))),
    )
is_restore_partial_failure_iff e = ground arith

tolerate_lem :
    (req : RestoreRequest) (r : Result (Unit {0})) (e : MigrationError)
    → (tolerate req r ≡ err e) ↔ ((r ≡ err e) × (req.tolerate_errors ≡ true → ¬ (IsOfPgRestore e)))
unfolding tolerate
tolerate_lem req (ok _) e = ground arith
tolerate_lem req (err d) e = ground (arith, is_restore_partial_failure_iff d)

-- A restore call fails exactly when the runner fails, and then with the runner's error, unless
-- errors are tolerated and the runner's error is an external command's with the name pg_restore,
-- whatever its detail.
pub run_pg_restore_lem :
    (is_dir : Text → Bool) (runner : Invocation → Result (Unit {0})) (req : RestoreRequest)
    (e : MigrationError)
    → (run_pg_restore is_dir runner req ≡ err e) ↔ (
        (runner (restore_invocation is_dir req) ≡ err e)
        × (req.tolerate_errors ≡ true → ¬ (IsOfPgRestore e)))
unfolding run_pg_restore
run_pg_restore_lem is_dir runner req e = tolerate_lem req (runner (restore_invocation is_dir req)) e
