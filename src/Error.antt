-- ===== src/Error.antt =====
-- pg_dbmigrator/src/error.rs: the error categories. `MigrationError::Config` and
-- `MigrationError::Apply` hold a formatted string: here that string is a value with one constructor
-- for each call site that formats it, which keeps the values that are interpolated.
use pg_migrator.Base.{◌≡◌, refl, ◌⊎◌, inl, inr, ℕ, ℤ, Text, Option, List, Bool, true, false}

-- The messages of `MigrationError::Config`, by the file that writes them.
pub data ConfigMessage : Type 0 where
  -- config.rs
  source_conn_empty target_conn_empty jobs_zero resume_without_dump_path : ConfigMessage
  split_threshold_zero split_max_parts_zero split_schema_only : ConfigMessage
  split_with_filters split_with_resume split_without_sections : ConfigMessage
  slot_name_empty publication_empty protocol_version_range subscription_name_empty : ConfigMessage
  poll_interval_zero fast_poll_interval_zero : ConfigMessage
  -- resume.rs
  token_not_json token_not_serialised : ConfigMessage
  token_schema_version : ℕ → ConfigMessage
  token_config_hash : Text → Text → ConfigMessage
  token_mode : Text → Text → ConfigMessage
  -- copy_split.rs
  target_table_occupied : Text → ConfigMessage
  size_no_number size_unknown_unit size_number_range size_overflow : Text → ConfigMessage
  -- orchestrator.rs
  split_without_snapshot verification_failed : ConfigMessage
  -- preflight.rs
  pg_dump_too_old : ℕ → ℕ → ConfigMessage
  pg_restore_too_old : ℕ → ℕ → ConfigMessage
  pg_restore_older_than_dump : ℕ → ℕ → ConfigMessage
  publication_missing : Text → ConfigMessage
  qualified_name_empty_part : Text → ConfigMessage
  target_lacks_create target_lacks_subscription target_needs_superuser : ConfigMessage
  extensions_missing : List Text → ConfigMessage
  output_not_utf8 : Text → ConfigMessage
  version_unparsable : Text → Text → ConfigMessage
  source_lacks_replication target_in_recovery pglogical_preloaded : ConfigMessage
  snapshot_timeout_set workers_too_few processes_too_few : ℤ → ConfigMessage
  wal_level_not_logical : Text → ConfigMessage
  guc_unparsable : Text → Text → ConfigMessage
  guc_not_positive : Text → ℤ → ConfigMessage
  -- whatever a function outside the crate reports under this category
  other_config : Text → ConfigMessage

-- The messages of `MigrationError::Apply`.
pub data ApplyMessage : Type 0 where
  worker_not_running worker_stopped slot_still_active : Text → ApplyMessage
  lsn_unparsable : Text → ApplyMessage

-- `Postgres` keeps the SQLSTATE of the database error, `Io` whether the kind is `NotFound`.
pub data MigrationError : Type 0 where
  config : ConfigMessage → MigrationError
  invalid_connection_string : Text → MigrationError
  external_command : Text → Text → MigrationError
  missing_tool : Text → Text → MigrationError
  io : Bool → MigrationError
  postgres : Option Text → MigrationError
  replication : Text → MigrationError
  apply : ApplyMessage → MigrationError
  cancelled : MigrationError

-- `error::Result`
pub data Result {ℓ} (A : Type ℓ) : Type ℓ where
  ok : A → Result A
  err : MigrationError → Result A

-- the `?` operator: stop at an error, or hand the value to the rest of the function
infixl 10 ◌>>=◌ ◌>>◌
abbrev pub ◌>>=◌ {ℓ κ} :
    {Val : Type ℓ} {Out : Type κ} (checked : Result Val) (rest : Val → Result Out) → Result Out
◌>>=◌ (err problem) rest = err problem
◌>>=◌ (ok val) rest = rest val

-- the same for a statement without a value
abbrev pub ◌>>◌ {ℓ} : {Out : Type ℓ} (checked : Result (Unit {0})) (rest : Result Out) → Result Out
◌>>◌ (err problem) rest = err problem
◌>>◌ (ok _) rest = rest

-- `if refuse { return Err(MigrationError::config(..)) }`
abbrev pub refuse_if : Bool → ConfigMessage → Result (Unit {0})
refuse_if true c = err (config c)
refuse_if false c = ok tt

abbrev pub is_ok {ℓ} : {A : Type ℓ} → Result A → Bool
is_ok (ok a) = true
is_ok (err e) = false

pub Result-cases {ℓ} :
    {A : Type ℓ} (r : Result A) → ((a : A) × (r ≡ ok a)) ⊎ ((e : MigrationError) × (r ≡ err e))
Result-cases (ok a) = inl (a, refl)
Result-cases (err e) = inr (e, refl)

-- what a chain that succeeds has done
pub >>=-eq-ok {ℓ κ} :
    {Val : Type ℓ} {Out : Type κ} (checked : Result Val) (rest : Val → Result Out) {out : Out}
    → (checked >>= rest) ≡ ok out
    → (val : Val) × (checked ≡ ok val) × (rest val ≡ ok out)
>>=-eq-ok (err problem) rest done = cc
>>=-eq-ok (ok val) rest done = (val, refl, done)

pub >>-eq-ok {ℓ} :
    {Out : Type ℓ} (checked : Result (Unit {0})) (rest : Result Out) {out : Out}
    → (checked >> rest) ≡ ok out
    → (checked ≡ ok tt) × (rest ≡ ok out)
>>-eq-ok (err problem) rest done = cc
>>-eq-ok (ok _) rest done = (refl, done)
