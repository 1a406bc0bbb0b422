-- ===== src/CopySplit/Wraps.antt =====
-- Which sizes are read as they were written (copy_split.rs).
use pg_migrator.Base.{
  sym, ◌∙◌, ap, All-In, In, All, text_eq_iff, List, ◌∷◌, ◌++◌, refl, lit, mem_text, text_eq, true,
  false, ◌↔◌, is_ascii_digit, Option, ℕ, ◌*◌, ◌^◌, ◌%◌, ◌<◌, Text, none, some, [], ◌≡◌, ◌≢◌, arith,
  Option-cases, inl, inr, trim, to_ascii_uppercase, parse_unsigned,
}
use pg_migrator.Error.{ok, err, config, size_overflow}
use pg_migrator.CopySplit.Size.{split_digits, unit_shift, checked_shl, parse_size}

-- every unit shifts by less than 64
unit_shift-lt : (unit : Text) (shift : ℕ) → unit_shift unit ≡ some shift → shift < 64
unfolding unit_shift
unit_shift-lt unit shift h = ground arith

-- The units, in upper case, and their bytes.
abbrev pub units : List (Text × ℕ)
units =
    ([], 1)
    ∷ (lit "B", 1)
    ∷ (lit "K", 1024)
    ∷ (lit "KB", 1024)
    ∷ (lit "KIB", 1024)
    ∷ (lit "M", 1048576)
    ∷ (lit "MB", 1048576)
    ∷ (lit "MIB", 1048576)
    ∷ (lit "G", 1073741824)
    ∷ (lit "GB", 1073741824)
    ∷ (lit "GIB", 1073741824)
    ∷ (lit "T", 1099511627776)
    ∷ (lit "TB", 1099511627776)
    ∷ (lit "TIB", 1099511627776)
    ∷ []

abbrev pub AllDigits : Text → Type 0
AllDigits s = All (λ c. is_ascii_digit c ≡ true) s

abbrev pub NoDigitFirst : Text → Type 0
NoDigitFirst [] = Unit {0}
NoDigitFirst (c ∷ s) = is_ascii_digit c ≡ false

-- The trimmed input is a number of at most 64 bits in decimal digits and then a unit, in any case
-- and with white space around it; the size is their product modulo 2^64.
abbrev pub IsSize : Text → ℕ → Type 0
IsSize input n =
    (digits : Text) × (suffix : Text) × (value : ℕ) × (bytes : ℕ) × (trim input ≡ digits ++ suffix)
    × (digits ≢ [])
    × AllDigits digits
    × NoDigitFirst suffix
    × (parse_unsigned 64 digits ≡ some value)
    × In (to_ascii_uppercase (trim suffix), bytes) units
    × (n ≡ value * bytes % 2 ^ 64)

split_digits_sound :
    (s : Text)
    → let (digits, suffix) = split_digits s in
      (s ≡ digits ++ suffix) × AllDigits digits × NoDigitFirst suffix
unfolding split_digits
split_digits_sound [] = (refl, tt, tt)
split_digits_sound (c ∷ s) = ground (arith, split_digits_sound s)

split_digits_complete :
    (digits suffix : Text)
    → AllDigits digits
    → NoDigitFirst suffix
    → split_digits (digits ++ suffix) ≡ (digits, suffix)
unfolding split_digits
split_digits_complete [] [] h k = refl
split_digits_complete [] (c ∷ s) h k = ground (arith, k)
split_digits_complete (c ∷ digits) suffix h k =
    ground (arith, h.0, split_digits_complete digits suffix h.1 k)

-- the bytes of a shift
abbrev bytes_of : Option ℕ → Option ℕ
bytes_of none = none
bytes_of (some shift) = some (2 ^ shift)

units_hold : All (λ u. bytes_of (unit_shift u.0) ≡ some u.1) units
unfolding unit_shift mem_text text_eq lit
units_hold = (
  refl,
  (
    refl,
    (
      refl,
      (refl, (refl, (refl, (refl, (refl, (refl, (refl, (refl, (refl, (refl, (refl, tt))))))))))),
    ),
  ),
)

unit_complete :
    (unit : Text) (bytes : ℕ) → In (unit, bytes) units → bytes_of (unit_shift unit) ≡ some bytes
unit_complete unit bytes i =
    All-In (λ u. bytes_of (unit_shift u.0) ≡ some u.1) (unit, bytes) units i units_hold

unit_sound :
    (unit : Text) (bytes : ℕ) → bytes_of (unit_shift unit) ≡ some bytes → In (unit, bytes) units
unfolding unit_shift mem_text
unit_sound unit bytes h = ground (
  arith,
  h,
  text_eq_iff [] unit,
  text_eq_iff (lit "B") unit,
  text_eq_iff (lit "K") unit,
  text_eq_iff (lit "KB") unit,
  text_eq_iff (lit "KIB") unit,
  text_eq_iff (lit "M") unit,
  text_eq_iff (lit "MB") unit,
  text_eq_iff (lit "MIB") unit,
  text_eq_iff (lit "G") unit,
  text_eq_iff (lit "GB") unit,
  text_eq_iff (lit "GIB") unit,
  text_eq_iff (lit "T") unit,
  text_eq_iff (lit "TB") unit,
  text_eq_iff (lit "TIB") unit,
)

-- a shift and its bytes
shift_of :
    (unit : Text) (bytes : ℕ)
    → In (unit, bytes) units
    → (shift : ℕ) × (unit_shift unit ≡ some shift) × (2 ^ shift ≡ bytes)
shift_of unit bytes i =
    let known = unit_complete unit bytes i in
    elim (Option-cases (unit_shift unit)) [
      | inl n ↦ ground (arith, n, known)
      | inr (shift, e) ↦ (shift, e, ground (arith, e, known))
    ]

read_size :
    (input num suffix : Text) (value shift : ℕ)
    → split_digits (trim input) ≡ (num, suffix)
    → num ≢ []
    → parse_unsigned 64 num ≡ some value
    → unit_shift (to_ascii_uppercase (trim suffix)) ≡ some shift
    → parse_size input ≡ ok (value * 2 ^ shift % 2 ^ 64)
unfolding parse_size checked_shl
read_size input num suffix value shift parts some_digits number unit =
    ground (arith, unit_shift-lt (to_ascii_uppercase (trim suffix)) shift unit)

was_read :
    (input : Text) (n : ℕ)
    → parse_size input ≡ ok n
    → let (digits, suffix) = split_digits (trim input) in
      (digits ≢ [])
      × (value : ℕ) × (shift : ℕ) × (parse_unsigned 64 digits ≡ some value)
      × (unit_shift (to_ascii_uppercase (trim suffix)) ≡ some shift)
      × (n ≡ value * 2 ^ shift % 2 ^ 64)
unfolding parse_size checked_shl
was_read input n h =
    let (digits, suffix) = split_digits (trim input) in
    elim (Option-cases (parse_unsigned 64 digits)) [
      | inl e ↦ ground (arith, h, e)
      | inr (value, e) ↦ elim (Option-cases (unit_shift (to_ascii_uppercase (trim suffix)))) [
        | inl u ↦ ground (arith, h, e, u)
        | inr (shift, u) ↦
            let few = unit_shift-lt (to_ascii_uppercase (trim suffix)) shift u in
            (ground (arith, h), value, shift, e, u, ground (arith, h, e, u, few))
      ]
    ]

parse_size-IsSize : (input : Text) (n : ℕ) → parse_size input ≡ ok n → IsSize input n
parse_size-IsSize input n h =
    let (digits, suffix) = split_digits (trim input) in
    let (parts, all, stop) = split_digits_sound (trim input) in
    let (some_digits, value, shift, number, unit, product) = was_read input n h in
    (
      digits,
      suffix,
      value,
      2 ^ shift,
      parts,
      some_digits,
      all,
      stop,
      number,
      unit_sound (to_ascii_uppercase (trim suffix)) (2 ^ shift) (ap bytes_of unit),
      product,
    )

IsSize-parse_size : (input : Text) (n : ℕ) → IsSize input n → parse_size input ≡ ok n
IsSize-parse_size input n
      (digits, suffix, value, bytes, parts, some_digits, all, stop, number, unit, product) =
    let (shift, known, power) = shift_of (to_ascii_uppercase (trim suffix)) bytes unit in
    let split = ap split_digits parts ∙ split_digits_complete digits suffix all stop in
    read_size input digits suffix value shift split some_digits number known
    ∙ ap ok (ap (λ b. value * b % 2 ^ 64) power ∙ sym product)

-- An input is accepted, with a size, exactly when it is a number of at most 64 bits and a known unit,
-- and the size is their product modulo 2^64: one that does not fit wraps around.
pub parse_size_wraps : (input : Text) (n : ℕ) → (parse_size input ≡ ok n) ↔ IsSize input n
parse_size_wraps input n = (parse_size-IsSize input n, IsSize-parse_size input n)

checked_shl-ne-none : (value shift : ℕ) → shift < 64 → checked_shl value shift ≢ none
unfolding checked_shl
checked_shl-ne-none value shift h e = ground arith

-- The error for a value that overflows is never reported, whatever the input.
pub parse_size_never_overflows :
    (input : Text) → parse_size input ≢ err (config (size_overflow input))
unfolding parse_size checked_shl
parse_size_never_overflows input h =
    let suffix = to_ascii_uppercase (trim (split_digits (trim input)).1) in
    elim (Option-cases (unit_shift suffix)) [
      | inl n ↦ ground (arith, n)
      | inr (shift, u) ↦ ground (arith, u, unit_shift-lt suffix shift u)
    ]
