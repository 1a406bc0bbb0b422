-- ===== src/Restore/Summary.antt =====
-- What the summary of a `pg_restore` run says of the lines that it was fed (restore.rs).
use mathlib.Core.Path.{subst, fun_ext}
use pg_migrator.Base.{
  ℕ, zero, suc, ◌+◌, ◌<◌, Text, lit, strip_prefix, trim_end, Option, none, some, List, [], ◌∷◌,
  ◌++◌, ◌≡◌, refl, ◌↔◌, arith, length, length-append, length-zero, ◌≢◌, sym, append-nil, trim,
  parse_unsigned, Option-cases, inl, inr, take, ltb, append_assoc, if◌then◌else◌,
}
use pg_migrator.Restore.Errors.{
  RestoreErrorCategory, data_loss, duplicate, privilege, extension, other, RestoreErrorSummary,
  empty_summary, same_category, update, max_samples_per_category, extract_pg_restore_error_text,
  classify_pg_restore_error, count_error, note_ignored, ingest_pg_restore_stderr_line,
  has_data_loss, review_required, no_errors, verdict,
}

-- the reader task: every line in order
unfoldable pub ingest_all : List Text → RestoreErrorSummary → RestoreErrorSummary
ingest_all [] s = s
ingest_all (line ∷ lines) s = ingest_all lines (ingest_pg_restore_stderr_line line s)

abbrev ignored_prefix : Text
ignored_prefix = lit "pg_restore: warning: errors ignored on restore: "

-- The error that a line reports, if it is an error line: its category and its text.
unfoldable pub line_error : Text → Option (RestoreErrorCategory × Text)
line_error line =
    elim (strip_prefix (lit "pg_restore: warning: errors ignored on restore: ") (trim_end line)) [
      | some _ ↦ none
      | none ↦ elim (extract_pg_restore_error_text (trim_end line)) [
        | none ↦ none
        | some text ↦ some (classify_pg_restore_error text, text)
      ]
    ]

abbrev add_error :
    RestoreErrorCategory → Option (RestoreErrorCategory × Text) → List Text → List Text
add_error c none rest = rest
add_error c (some (d, text)) rest = if same_category d c then text ∷ rest else rest

-- The texts of one category among the lines, in order.
unfoldable pub errors_of : RestoreErrorCategory → List Text → List Text
errors_of c [] = []
errors_of c (line ∷ lines) = add_error c (line_error line) (errors_of c lines)

-- The summary describes the errors `e`, by category.
record Describes (s : RestoreErrorSummary) (e : RestoreErrorCategory → List Text) : Type 0 where
  count : (c : RestoreErrorCategory) → s.counts c ≡ length (e c)
  sample : (c : RestoreErrorCategory) → s.samples c ≡ take max_samples_per_category (e c)
  total :
      s.total_captured
      ≡ length (e data_loss)
        + length (e duplicate)
        + length (e privilege)
        + length (e extension)
        + length (e other)

take-append_one :
    (n : ℕ) (xs : List Text) (x : Text)
    → (if ltb (length (take n xs)) n then take n xs ++ x ∷ [] else take n xs)
      ≡ take n (xs ++ x ∷ [])
take-append_one zero xs x = refl
take-append_one (suc zero) [] x = refl
take-append_one (suc (suc n)) [] x = ground arith
take-append_one (suc n) (y ∷ xs) x = ground (arith, take-append_one n xs x)

-- one more error of category `c`
abbrev more :
    (RestoreErrorCategory → List Text)
    → RestoreErrorCategory
    → Text
    → RestoreErrorCategory
    → List Text
more e c text = update e c (e c ++ text ∷ [])

more_total :
    (s : RestoreErrorSummary) (e : RestoreErrorCategory → List Text) (c : RestoreErrorCategory)
    (text : Text)
    → Describes s e
    → s.total_captured + 1
      ≡ length (more e c text data_loss)
        + length (more e c text duplicate)
        + length (more e c text privilege)
        + length (more e c text extension)
        + length (more e c text other)
more_total s e data_loss text h = omega (arith, length-append (e data_loss) (text ∷ []))
more_total s e duplicate text h = omega (arith, length-append (e duplicate) (text ∷ []))
more_total s e privilege text h = omega (arith, length-append (e privilege) (text ∷ []))
more_total s e extension text h = omega (arith, length-append (e extension) (text ∷ []))
more_total s e other text h = omega (arith, length-append (e other) (text ∷ []))

count_error-Describes :
    (s : RestoreErrorSummary) (e : RestoreErrorCategory → List Text) (c : RestoreErrorCategory)
    (text : Text)
    → Describes s e
    → Describes (count_error s c text) (more e c text)
unfolding count_error
count_error-Describes s e c text h = record {
  count = λ d. ground (arith, h.count c, h.count d, length-append (e c) (text ∷ []));
  sample = λ d.
      ground (arith, h.sample c, h.sample d, take-append_one max_samples_per_category (e c) text);
  total = more_total s e c text h;
}

-- The errors before a line, and the one that it reports.
abbrev and_line :
    (RestoreErrorCategory → List Text)
    → Option (RestoreErrorCategory × Text)
    → RestoreErrorCategory
    → List Text
and_line e none = e
and_line e (some (c, text)) = more e c text

note_ignored-Describes :
    (s : RestoreErrorSummary) (o : Option ℕ) (e : RestoreErrorCategory → List Text)
    → Describes s e
    → Describes (note_ignored s o) e
unfolding note_ignored
note_ignored-Describes s none e h = h
note_ignored-Describes s (some n) e h = record {
  count = h.count;
  sample = h.sample;
  total = h.total;
}

ingest-Describes :
    (line : Text) (s : RestoreErrorSummary) (e : RestoreErrorCategory → List Text)
    → Describes s e
    → Describes (ingest_pg_restore_stderr_line line s) (and_line e (line_error line))
unfolding ingest_pg_restore_stderr_line line_error
ingest-Describes line s e h = elim (Option-cases (strip_prefix ignored_prefix (trim_end line))) [
  | inr (rest, p) ↦
      rw (p, ingest_pg_restore_stderr_line, line_error)
        (note_ignored-Describes s (parse_unsigned 32 (trim rest)) e h)
  | inl p ↦ elim (Option-cases (extract_pg_restore_error_text (trim_end line))) [
    | inl q ↦ rw (p, q, ingest_pg_restore_stderr_line, line_error) h
    | inr (text, q) ↦
        rw (p, q, ingest_pg_restore_stderr_line, line_error)
          (count_error-Describes s e (classify_pg_restore_error text) text h)
  ]
]

-- The errors of `lines` behind those of `e`.
abbrev and_lines : (RestoreErrorCategory → List Text) → List Text → RestoreErrorCategory → List Text
and_lines e lines c = e c ++ errors_of c lines

and_line-and_lines :
    (e : RestoreErrorCategory → List Text) (line : Text) (lines : List Text)
    (c : RestoreErrorCategory)
    → and_lines (and_line e (line_error line)) lines c ≡ and_lines e (line ∷ lines) c
unfolding errors_of
and_line-and_lines e line lines c = go (line_error line)
  where
    go :
        (o : Option (RestoreErrorCategory × Text))
        → and_line e o c ++ errors_of c lines ≡ e c ++ add_error c o (errors_of c lines)
    go none = refl
    go (some (d, text)) = ground (arith, append_assoc (e c) (text ∷ []) (errors_of c lines))

ingest_all-Describes :
    (lines : List Text) (s : RestoreErrorSummary) (e : RestoreErrorCategory → List Text)
    → Describes s e
    → Describes (ingest_all lines s) (and_lines e lines)
unfolding ingest_all errors_of
ingest_all-Describes [] s e h = subst (Describes s) (fun_ext (λ c. sym (append-nil (e c)))) h
ingest_all-Describes (line ∷ lines) s e h =
    subst (Describes (ingest_all (line ∷ lines) s)) (fun_ext (and_line-and_lines e line lines)) (
      ingest_all-Describes lines (ingest_pg_restore_stderr_line line s)
        (and_line e (line_error line)) (ingest-Describes line s e h))

-- After any lines, the summary counts for each category the error lines of that category, keeps
-- the first five of their texts, and its total is the number of all error lines.
pub ingest_all_lem :
    (lines : List Text)
    → let s = ingest_all lines empty_summary in
      ((c : RestoreErrorCategory)
        → (s.counts c ≡ length (errors_of c lines)) × (s.samples c ≡ take 5 (errors_of c lines)))
      × (s.total_captured
          ≡ length (errors_of data_loss lines)
            + length (errors_of duplicate lines)
            + length (errors_of privilege lines)
            + length (errors_of extension lines)
            + length (errors_of other lines))
ingest_all_lem lines =
    let d =
      ingest_all-Describes lines empty_summary (λ c. [])
        (record { count = λ c. refl; sample = λ c. refl; total = omega arith }) in
    (λ c. (d.count c, d.sample c), d.total)

abbrev Nothing : List Text → Type 0
Nothing lines = (c : RestoreErrorCategory) → errors_of c lines ≡ []

empty_of_total :
    (lines : List Text) → (ingest_all lines empty_summary).total_captured ≡ 0 → Nothing lines
empty_of_total lines h data_loss = length-zero _ (omega (arith, (ingest_all_lem lines).1))
empty_of_total lines h duplicate = length-zero _ (omega (arith, (ingest_all_lem lines).1))
empty_of_total lines h privilege = length-zero _ (omega (arith, (ingest_all_lem lines).1))
empty_of_total lines h extension = length-zero _ (omega (arith, (ingest_all_lem lines).1))
empty_of_total lines h other = length-zero _ (omega (arith, (ingest_all_lem lines).1))

total_of_empty :
    (lines : List Text) → Nothing lines → (ingest_all lines empty_summary).total_captured ≡ 0
total_of_empty lines h =
    ground
      (arith, (ingest_all_lem lines).1, h data_loss, h duplicate, h privilege, h extension, h other)

some_iff : (xs : List Text) → (0 < length xs) ↔ (xs ≢ [])
some_iff [] = ground arith
some_iff (x ∷ xs) = ground arith

-- The verdict asks for a review exactly when some line was classified as data loss, and says that
-- nothing was captured exactly when no line was an error line of any category.
pub verdict_lem :
    (lines : List Text)
    → let v = verdict (ingest_all lines empty_summary) in
      ((v ≡ review_required) ↔ (errors_of data_loss lines ≢ []))
      × ((v ≡ no_errors) ↔ ((c : RestoreErrorCategory) → errors_of c lines ≡ []))
unfolding verdict has_data_loss
verdict_lem lines =
    let (each, total) = ingest_all_lem lines in
    let lost = (each data_loss).0 in
    let positive = some_iff (errors_of data_loss lines) in
    (
      ground (arith, lost, positive),
      (
        (λ v. empty_of_total lines (ground (arith, lost, positive))),
        λ h. ground (arith, lost, positive, h data_loss, total_of_empty lines h),
      ),
    )
