-- ===== src/CopySplit/Size.antt =====
-- `parse_size` (pg_dbmigrator/src/copy_split.rs).
use pg_migrator.Base.{
  ℕ, ◌*◌, ◌^◌, ◌%◌, Text, lit, mem_text, trim, to_ascii_uppercase, is_ascii_digit, parse_unsigned,
  Option, none, some, [], ◌∷◌, ltb, is_empty, if◌then◌else◌,
}
use pg_migrator.Error.{
  Result, ok, err, config, ◌>>=◌, ◌>>◌, refuse_if, size_no_number, size_unknown_unit,
  size_number_range, size_overflow,
}

-- `s.split_at(i)` at the first character that is no digit
unfoldable pub split_digits : Text → Text × Text
split_digits [] = ([], [])
split_digits (c ∷ s) =
    let (digits, rest) = split_digits s in
    if is_ascii_digit c then (c ∷ digits, rest) else ([], c ∷ s)

-- the shift of a unit, in upper case
unfoldable pub unit_shift : Text → Option ℕ
unit_shift unit =
    if mem_text unit ([] ∷ lit "B" ∷ [])
    then some 0
    else if mem_text unit (lit "K" ∷ lit "KB" ∷ lit "KIB" ∷ [])
    then some 10
    else if mem_text unit (lit "M" ∷ lit "MB" ∷ lit "MIB" ∷ [])
    then some 20
    else if mem_text unit (lit "G" ∷ lit "GB" ∷ lit "GIB" ∷ [])
    then some 30
    else if mem_text unit (lit "T" ∷ lit "TB" ∷ lit "TIB" ∷ [])
    then some 40
    else none

-- `u64::checked_shl`: `None` only for a shift of 64 or more; bits shifted out are lost.
unfoldable pub checked_shl : ℕ → ℕ → Option ℕ
checked_shl value shift = if ltb shift 64 then some (value * 2 ^ shift % 2 ^ 64) else none

-- `option.ok_or(error)`
abbrev pub ok_or {ℓ} : {A : Type ℓ} → Option A → Result A → Result A
ok_or none e = e
ok_or (some a) e = ok a

unfoldable pub parse_size : Text → Result ℕ
parse_size input =
    let (num, suffix) = split_digits (trim input) in
    do
      refuse_if (is_empty num) (size_no_number input)
      value ← ok_or (parse_unsigned 64 num) (err (config (size_number_range input)))
      shift ←
          ok_or (unit_shift (to_ascii_uppercase (trim suffix)))
            (err (config (size_unknown_unit input)))
      ok_or (checked_shl value shift) (err (config (size_overflow input)))
