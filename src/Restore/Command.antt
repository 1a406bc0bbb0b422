-- ===== src/Restore/Command.antt =====
-- `RestoreSection`, `RestoreRequest`, `build_pg_restore_args` and `run_pg_restore`
-- (pg_dbmigrator/src/restore.rs). Whether a path is a directory, and what a command returns, are
-- parameters.
use pg_migrator.Base.{
  ℕ, Text, lit, text_eq, to_text, Option, none, some, List, [], ◌∷◌, ◌++◌, Bool, true, false, ◌&&◌,
  ltb, if◌then◌else◌,
}
use pg_migrator.Error.{MigrationError, external_command, Result, ok, err}
use pg_migrator.Config.{EndpointConfig}
use pg_migrator.Dump.{when, pgpassword_env, Invocation}

pub data RestoreSection : Type 0 where
  pre_data only_data post_data : RestoreSection

-- `RestoreSection::flag`
unfoldable pub section_flag : RestoreSection → Text
section_flag pre_data = lit "pre-data"
section_flag only_data = lit "data"
section_flag post_data = lit "post-data"

-- `RESTORE_SECTIONS`
abbrev pub restore_sections : List RestoreSection
restore_sections = pre_data ∷ only_data ∷ post_data ∷ []

pub record RestoreRequest : Type 0 where
  pub target : EndpointConfig
  pub input_path : Text
  pub jobs : ℕ
  pub clean : Bool
  pub no_owner : Bool
  pub no_acl : Bool
  pub tolerate_errors : Bool
  pub section : Option RestoreSection

-- `matches!(section, None | Some(PreData))`
abbrev pub may_clean : Option RestoreSection → Bool
may_clean none = true
may_clean (some pre_data) = true
may_clean (some _) = false

abbrev section_args : Option RestoreSection → List Text
section_args none = []
section_args (some section) = (lit "--section=" ++ section_flag section) ∷ []

unfoldable pub build_pg_restore_args : (Text → Bool) → RestoreRequest → List Text
build_pg_restore_args is_dir req =
    lit "--no-password"
    ∷ lit "--verbose"
    ∷ lit "--host"
    ∷ req.target.host
    ∷ lit "--port"
    ∷ to_text req.target.port
    ∷ lit "--username"
    ∷ req.target.user
    ∷ lit "--dbname"
    ∷ req.target.database
    ∷ (when (ltb 1 req.jobs && is_dir req.input_path) (lit "--jobs" ∷ to_text req.jobs ∷ [])
        ++ (when (req.clean && may_clean req.section) (lit "--clean" ∷ lit "--if-exists" ∷ [])
            ++ (when req.no_owner (lit "--no-owner" ∷ [])
                ++ (when req.no_acl (lit "--no-acl" ∷ [])
                    ++ (section_args req.section ++ req.input_path ∷ [])))))

unfoldable pub is_restore_partial_failure : MigrationError → Bool
is_restore_partial_failure (external_command command _) = text_eq command (lit "pg_restore")
is_restore_partial_failure _ = false

unfoldable pub restore_invocation : (Text → Bool) → RestoreRequest → Invocation
restore_invocation is_dir req = record {
  program = lit "pg_restore";
  args = build_pg_restore_args is_dir req;
  env = pgpassword_env req.target;
}

-- the `match` on what the runner returned
unfoldable pub tolerate : RestoreRequest → Result (Unit {0}) → Result (Unit {0})
tolerate req (ok _) = ok tt
tolerate req (err e) = if req.tolerate_errors && is_restore_partial_failure e then ok tt else err e

unfoldable pub run_pg_restore :
    (Text → Bool) → (Invocation → Result (Unit {0})) → RestoreRequest → Result (Unit {0})
run_pg_restore is_dir runner req = tolerate req (runner (restore_invocation is_dir req))
