-- ===== src/Examples/Pieces.antt =====
-- The configuration, the token, the restore and the sizes at example inputs.
use mathlib.Core.List.{Permᴰ}
use pg_migrator.Base.{
  ◌∙◌, sym, ap, In, ◌==◌, if◌then◌else◌, Option, ℕ, mem_text, text_eq, is_whitespace,
  is_ascii_digit, to_ascii_uppercase, trim, ◌+◌, Bool, parse_unsigned, refl, ◌≡◌, ◌↔◌, ◌⊎◌, Text,
  lit, none, some, List, [], ◌∷◌, true, length, take,
}
use pg_migrator.Error.{external_command, Result, ok, err}
use pg_migrator.Config.{MigrationConfig, online, validate}
use pg_migrator.Config.Validate.{IsValid, validate_iff}
use pg_migrator.Resume.Hash.{HashItem}
use pg_migrator.Resume.Token.{
  source_vacuum, dump, has, CompletedStage, mark, ResumeToken, config_hash, new_token,
  check_compatible,
}
use pg_migrator.Resume.File.{Disk, save, load, rename_fails, no_fault}
use pg_migrator.Resume.Saved.{read_back, save_atomic, marked, save-load}
use pg_migrator.Resume.Order.{SameMigration, config_hash-SameMigration}
use pg_migrator.Restore.Errors.{
  RestoreErrorCategory, data_loss, duplicate, privilege, extension, other, empty_summary,
}
use pg_migrator.Dump.{Invocation}
use pg_migrator.Restore.Command.{RestoreRequest, only_data, restore_invocation, run_pg_restore}
use pg_migrator.Restore.Summary.{ingest_all, errors_of, ingest_all_lem}
use pg_migrator.Restore.Sections.{IsOfPgRestore, run_pg_restore_lem}
use pg_migrator.CopySplit.Size.{parse_size, checked_shl, split_digits, unit_shift}
use pg_migrator.CopySplit.Wraps.{IsSize, parse_size_wraps}
use pg_migrator.Examples.Data.{endpoint, config_of}

abbrev cfg : MigrationConfig
cfg = config_of online

validate_iff_example : (validate cfg ≡ ok tt) ↔ IsValid cfg
validate_iff_example = validate_iff cfg

abbrev hasher : List HashItem → Text
hasher items = lit "hash"

abbrev token : ResumeToken
token = new_token hasher cfg (lit "dump")

abbrev disk : Disk
disk = record { final = none; tmp = some (lit "{") }

-- an encoding of the tokens of this configuration: a letter for each stage
abbrev letter : Bool → ℕ
letter b = if b then b'1' else b'0'

abbrev encoded : ResumeToken → Option Text
encoded t = some (
    letter t.completed.has_source_vacuum
    ∷ letter t.completed.has_prepare_snapshot
    ∷ letter t.completed.has_dump
    ∷ letter t.completed.has_restore
    ∷ letter t.completed.has_analyze
    ∷ letter t.completed.has_verified
    ∷ [])

abbrev from_letters : Text → Option ResumeToken
from_letters (v ∷ p ∷ d ∷ r ∷ a ∷ w ∷ []) = some (record token {
  completed = record {
    has_source_vacuum = v == b'1';
    has_prepare_snapshot = p == b'1';
    has_dump = d == b'1';
    has_restore = r == b'1';
    has_analyze = a == b'1';
    has_verified = w == b'1';
  };
})
from_letters _ = none

abbrev marks : List CompletedStage
marks = dump ∷ source_vacuum ∷ []

abbrev bytes_in : Option Text → Option ResumeToken
bytes_in none = none
bytes_in (some bytes) = from_letters bytes

decodes :
    (bytes : Text)
    → encoded (marked marks token) ≡ some bytes
    → from_letters bytes ≡ some (marked marks token)
unfolding marked mark new_token
decodes bytes h = ap bytes_in (sym h) ∙ refl

save-load_example :
    let t = marked marks token in
    let (d', r) = save encoded no_fault t disk in
    let loaded = load from_letters (read_back d') in
    (r ≡ ok tt → loaded ≡ ok (some t))
    × ((loaded ≡ load from_letters (read_back disk)) ⊎ (loaded ≡ ok (some t)))
    × (check_compatible hasher t cfg ≡ ok tt)
    × ((asked : CompletedStage) → (has t asked ≡ true) ↔ In asked marks)
save-load_example =
    save-load encoded from_letters hasher cfg (lit "dump") marks no_fault disk decodes

save_atomic_example :
    let (d', r) = save encoded rename_fails token disk in
    let written = (bytes : Text) × (encoded token ≡ some bytes) × (d'.final ≡ some bytes) in
    ((d'.final ≡ disk.final) ⊎ written) × (r ≡ ok tt → written)
save_atomic_example = save_atomic encoded rename_fails token disk

abbrev lines : List Text
lines =
    lit "pg_restore: error: could not execute query: ERROR:  relation already exists"
    ∷ lit "pg_restore: done"
    ∷ []

ingest_all_lem_example :
    let s = ingest_all lines empty_summary in
    ((c : RestoreErrorCategory)
      → (s.counts c ≡ length (errors_of c lines)) × (s.samples c ≡ take 5 (errors_of c lines)))
    × (s.total_captured
        ≡ length (errors_of data_loss lines)
          + length (errors_of duplicate lines)
          + length (errors_of privilege lines)
          + length (errors_of extension lines)
          + length (errors_of other lines))
ingest_all_lem_example = ingest_all_lem lines

abbrev request : RestoreRequest
request = record {
  target = endpoint;
  input_path = lit "dump";
  jobs = 4;
  clean = true;
  no_owner = true;
  no_acl = true;
  tolerate_errors = true;
  section = some only_data;
}

abbrev is_dir : Text → Bool
is_dir path = true

abbrev failing : Invocation → Result (Unit {0})
failing i = err (external_command (lit "pg_restore") (lit "exit status 1"))

run_pg_restore_lem_example :
    (run_pg_restore is_dir failing request
      ≡ err (external_command (lit "pg_restore") (lit "exit status 1")))
    ↔ ((failing (restore_invocation is_dir request)
          ≡ err (external_command (lit "pg_restore") (lit "exit status 1")))
        × (request.tolerate_errors ≡ true
            → ¬ (IsOfPgRestore (external_command (lit "pg_restore") (lit "exit status 1")))))
run_pg_restore_lem_example =
    run_pg_restore_lem is_dir failing request
      (external_command (lit "pg_restore") (lit "exit status 1"))

-- 2^24 terabytes are 2^64 bytes.
too_large : parse_size (lit "16777216T") ≡ ok 0
unfolding parse_size checked_shl split_digits trim lit is_whitespace is_ascii_digit parse_unsigned
    unit_shift mem_text text_eq to_ascii_uppercase
too_large = refl

parse_size_wraps_example : (parse_size (lit "16777216T") ≡ ok 0) ↔ IsSize (lit "16777216T") 0
parse_size_wraps_example = parse_size_wraps (lit "16777216T") 0

abbrev cfg_ab : MigrationConfig
cfg_ab = record cfg { schemas = lit "a" ∷ lit "b" ∷ []; jobs = 8 }

abbrev cfg_ba : MigrationConfig
cfg_ba = record cfg { schemas = lit "b" ∷ lit "a" ∷ [] }

same : SameMigration cfg_ab cfg_ba
same = record {
  mode = refl;
  source_host = refl;
  source_port = refl;
  source_database = refl;
  target_host = refl;
  target_port = refl;
  target_database = refl;
  schemas = ∣ Permᴰ.swap refl refl ∣₁;
  tables = ∣ Permᴰ.nil ∣₁;
  slot_name = λ h. refl;
  publication = λ h. refl;
  subscription_name = λ h. refl;
}

config_hash-SameMigration_example : config_hash hasher cfg_ab ≡ config_hash hasher cfg_ba
config_hash-SameMigration_example = config_hash-SameMigration hasher cfg_ab cfg_ba same
