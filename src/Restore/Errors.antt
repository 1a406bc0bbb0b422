-- ===== src/Restore/Errors.antt =====
-- `extract_pg_restore_error_text`, `classify_pg_restore_error`, `RestoreErrorSummary` and
-- `ingest_pg_restore_stderr_line` (pg_dbmigrator/src/restore.rs).
use Prim.Native.String.{String}
use pg_migrator.Base.{
  ℕ, ◌+◌, Text, lit, strip_prefix, contains, trim, trim_start, trim_end, to_ascii_lowercase,
  parse_unsigned, Option, none, some, List, [], ◌∷◌, ◌++◌, Bool, true, false, ◌||◌, ltb, ◌==◌,
  length, if◌then◌else◌,
}

pub data RestoreErrorCategory : Type 0 where
  data_loss duplicate privilege extension other : RestoreErrorCategory

unfoldable pub extract_pg_restore_error_text : Text → Option Text
extract_pg_restore_error_text line =
    elim (strip_prefix (lit "pg_restore: error: ") (trim_end line)) [
      | none ↦ none
      | some after_prefix ↦ some (trim_start after_prefix)
    ]

-- `l.contains(a) || l.contains(b) || ..`
unfoldable pub contains_any : List String → Text → Bool
contains_any [] l = false
contains_any (p ∷ ps) l = contains (lit p) l || contains_any ps l

abbrev pub data_loss_patterns : List String
data_loss_patterns =
    "error:  copy " ∷ "error: copy " ∷ "invalid input syntax" ∷ "violates not-null"
    ∷ "violates check constraint" ∷ "violates foreign key" ∷ "violates unique constraint"
    ∷ "value too long for type" ∷ "out of range" ∷ []

abbrev pub duplicate_patterns : List String
duplicate_patterns = "already exists" ∷ "duplicate key value" ∷ []

abbrev pub privilege_patterns : List String
privilege_patterns =
    "permission denied" ∷ "must be owner" ∷ "must be superuser" ∷ "role \"" ∷ "user mapping" ∷ []

abbrev pub extension_patterns : List String
extension_patterns = "extension " ∷ "pg_extension" ∷ "for extension" ∷ []

unfoldable pub classify_pg_restore_error : Text → RestoreErrorCategory
classify_pg_restore_error error_text =
    let l = to_ascii_lowercase error_text in
    if contains_any data_loss_patterns l
    then data_loss
    else if contains_any duplicate_patterns l
    then duplicate
    else if contains_any privilege_patterns l
    then privilege
    else if contains_any extension_patterns l
    then extension
    else other

-- The two maps by category are functions: a key that is absent counts 0 and has no sample.
pub record RestoreErrorSummary : Type 0 where
  pub counts : RestoreErrorCategory → ℕ
  pub samples : RestoreErrorCategory → List Text
  pub errors_ignored_reported : Option ℕ
  pub total_captured : ℕ

abbrev pub empty_summary : RestoreErrorSummary
empty_summary = record {
  counts = λ c. 0;
  samples = λ c. [];
  errors_ignored_reported = none;
  total_captured = 0;
}

abbrev pub max_samples_per_category : ℕ
max_samples_per_category = 5

abbrev pub same_category : RestoreErrorCategory → RestoreErrorCategory → Bool
same_category data_loss data_loss = true
same_category duplicate duplicate = true
same_category privilege privilege = true
same_category extension extension = true
same_category other other = true
same_category _ _ = false

-- `*map.entry(cat).or_insert(..)` with a new value
abbrev pub update {ℓ} :
    {A : Type ℓ} → (RestoreErrorCategory → A) → RestoreErrorCategory → A → RestoreErrorCategory → A
update f c v d = if same_category c d then v else f d

-- one error line of the category
unfoldable pub count_error : RestoreErrorSummary → RestoreErrorCategory → Text → RestoreErrorSummary
count_error summary cat error_text =
    let bucket = summary.samples cat in
    record summary {
      counts = update summary.counts cat (summary.counts cat + 1);
      total_captured = summary.total_captured + 1;
      samples = update summary.samples cat (
          if ltb (length bucket) max_samples_per_category
          then bucket ++ error_text ∷ []
          else bucket);
    }

-- the count that `pg_restore` reports itself, if it parses
unfoldable pub note_ignored : RestoreErrorSummary → Option ℕ → RestoreErrorSummary
note_ignored summary none = summary
note_ignored summary (some n) = record summary { errors_ignored_reported = some n }

unfoldable pub ingest_pg_restore_stderr_line : Text → RestoreErrorSummary → RestoreErrorSummary
ingest_pg_restore_stderr_line line summary =
    let trimmed = trim_end line in
    elim (strip_prefix (lit "pg_restore: warning: errors ignored on restore: ") trimmed) [
      | some rest ↦ note_ignored summary (parse_unsigned 32 (trim rest))
      | none ↦ elim (extract_pg_restore_error_text trimmed) [
        | none ↦ summary
        | some error_text ↦ count_error summary (classify_pg_restore_error error_text) error_text
      ]
    ]

unfoldable pub has_data_loss : RestoreErrorSummary → Bool
has_data_loss s = ltb 0 (s.counts data_loss)

pub data Verdict : Type 0 where
  review_required no_errors likely_safe : Verdict

-- `verdict`, with a constructor for each text
unfoldable pub verdict : RestoreErrorSummary → Verdict
verdict s =
    if has_data_loss s
    then review_required
    else if s.total_captured == 0
    then no_errors
    else likely_safe
