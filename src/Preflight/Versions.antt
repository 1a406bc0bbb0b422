-- ===== src/Preflight/Versions.antt =====
-- Client and server versions (pg_dbmigrator/src/preflight.rs): `parse_pg_dump_version`,
-- `decide_pg_dump_compat`, `decide_pg_restore_compat` and `server_major_version`'s arithmetic.
use pg_migrator.Base.{
  ℕ, suc, ◌/◌, ◌%◌, ◌-◌, ◌^◌, ℤ, pos, negsuc, Text, lit, contains, to_ascii_lowercase,
  split_at_text, split_char, split_whitespace, take_digits, parse_unsigned, ltb, Option, none, some,
  List, [], ◌∷◌, Bool, ◌||◌, if◌then◌else◌,
}
use pg_migrator.Error.{
  Result, ◌>>◌, refuse_if, pg_dump_too_old, pg_restore_too_old, pg_restore_older_than_dump,
}

-- the major version at the start of a word
unfoldable pub leading_number : Text → Option ℕ
leading_number word = parse_unsigned 32 (take_digits word)

-- `stdout.split("(PostgreSQL)").nth(1)`
unfoldable pub after_marker : Text → Option Text
after_marker stdout = elim (split_at_text (lit "(PostgreSQL)") stdout) [
  | none ↦ none
  | some (before, rest) ↦ elim (split_at_text (lit "(PostgreSQL)") rest) [
    | none ↦ some rest
    | some (part, later) ↦ some part
  ]
]

-- the version in the first word
unfoldable pub first_word_number : List Text → Option ℕ
first_word_number [] = none
first_word_number (word ∷ words) = leading_number word

unfoldable pub marked_version : Text → Option ℕ
marked_version stdout = elim (after_marker stdout) [
  | none ↦ none
  | some rest ↦ first_word_number (split_whitespace rest)
]

-- Whether a line looks like a version banner. `to_lowercase` of a character outside of ASCII makes
-- no letter of these three words.
unfoldable pub is_banner : Text → Bool
is_banner line =
    let l = to_ascii_lowercase line in
    contains (lit "dump") l || contains (lit "restore") l || contains (lit "version") l

-- The first line that looks like a banner. A carriage return before the line's end, which `lines`
-- takes off, is white space to `split_whitespace`.
unfoldable pub find_banner : List Text → Option Text
find_banner [] = none
find_banner (line ∷ rest) = if is_banner line then some line else find_banner rest

unfoldable pub scan_line : Text → Text
scan_line stdout = elim (find_banner (split_char 10 stdout)) [ some line ↦ line | none ↦ stdout ]

-- `.ok().filter(|v| *v < 100)`
unfoldable pub below_hundred : Option ℕ → Option ℕ
below_hundred none = none
below_hundred (some v) = if ltb v 100 then some v else none

-- the first word that starts with a small number
unfoldable pub find_number : List Text → Option ℕ
find_number [] = none
find_number (word ∷ words) = elim (below_hundred (leading_number word)) [
  | some v ↦ some v
  | none ↦ find_number words
]

unfoldable pub parse_pg_dump_version : Text → Option ℕ
parse_pg_dump_version stdout = elim (marked_version stdout) [
  | some v ↦ some v
  | none ↦ find_number (split_whitespace (scan_line stdout))
]

-- `(num / 10000) as u32` on i32
unfoldable pub major_of : ℤ → ℕ
major_of (pos n) = n / 10000
major_of (negsuc n) = (2 ^ 32 - suc n / 10000) % 2 ^ 32

unfoldable pub decide_pg_dump_compat : ℕ → ℕ → Result (Unit {0})
decide_pg_dump_compat pg_dump_major source_major =
    refuse_if (ltb pg_dump_major source_major) (pg_dump_too_old pg_dump_major source_major)

unfoldable pub decide_pg_restore_compat : ℕ → ℕ → ℕ → Result (Unit {0})
decide_pg_restore_compat pg_restore_major target_major pg_dump_major = do
  refuse_if (ltb pg_restore_major target_major) (pg_restore_too_old pg_restore_major target_major)
  refuse_if (ltb pg_restore_major pg_dump_major)
      (pg_restore_older_than_dump pg_restore_major pg_dump_major)
