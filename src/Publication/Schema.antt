-- ===== src/Publication/Schema.antt =====
-- The schema of a qualified name (pg_dbmigrator/src/preflight.rs).
use mathlib.Core.Path.{subst}
use pg_migrator.Base.{
  Option-cases, Bool-cases, ap, sym, ◌∙◌, ◌==◌, ℕ, Text, In, [], ◌∷◌, ◌++◌, false, true, ◌≡◌, ◌≢◌,
  refl, ◌⊎◌, inl, inr, arith, split_once,
}
use pg_migrator.Publication.{schema_of}

-- The qualified name stands in the schema: the schema has no dot, and it is the whole name or all
-- that stands before the first dot of it.
abbrev pub InSchema : Text → Text → Type 0
InSchema schema t =
    ¬ (In b'.' schema) × ((t ≡ schema) ⊎ ((rest : Text) × (t ≡ schema ++ b'.' ∷ rest)))

is_dot : (c : ℕ) → (c == b'.') ≡ true → c ≡ b'.'
is_dot c h = ground (arith, h)

schema_of_nil : schema_of [] ≡ []
unfolding schema_of split_once
schema_of_nil = refl

schema_of_dot : (t : Text) → schema_of (b'.' ∷ t) ≡ []
unfolding schema_of split_once
schema_of_dot t = refl

schema_of_other : (c : ℕ) (t : Text) → (c == b'.') ≡ false → schema_of (c ∷ t) ≡ c ∷ schema_of t
unfolding schema_of split_once
schema_of_other c t h = elim (Option-cases (split_once b'.' t)) [
  | inl n ↦ ground (arith, h, n)
  | inr ((a, b), n) ↦ ground (arith, h, n)
]

InSchema-cons :
    (c : ℕ) (t schema : Text)
    → (c == b'.') ≡ false
    → InSchema schema t
    → InSchema (c ∷ schema) (c ∷ t)
InSchema-cons c t schema other (clean, inl e) =
    ((λ i. elim i [ inl q ↦ ground (arith, other, q) | inr m ↦ clean m ]), inl (ap (λ s. c ∷ s) e))
InSchema-cons c t schema other (clean, inr (rest, e)) = (
  (λ i. elim i [ inl q ↦ ground (arith, other, q) | inr m ↦ clean m ]),
  inr (rest, ap (λ s. c ∷ s) e),
)

pub schema_of-InSchema : (t : Text) → InSchema (schema_of t) t
schema_of-InSchema [] = rw (schema_of_nil) ((λ i. elim i [ ]), inl refl)
schema_of-InSchema (c ∷ t) = elim (Bool-cases (c == b'.')) [
  | inl dot ↦
      let e = is_dot c dot in
      subst (λ d. InSchema (schema_of (d ∷ t)) (d ∷ t)) (sym e)
        (rw (schema_of_dot t) ((λ i. elim i [ ]), inr (t, refl)))
  | inr other ↦
      rw (schema_of_other c t other) (InSchema-cons c t (schema_of t) other (schema_of-InSchema t))
]

not_dot : (c : ℕ) → c ≢ b'.' → (c == b'.') ≡ false
not_dot c h = ground (arith, h)

InSchema-tail :
    (c : ℕ) (t : Text) (s : ℕ) (schema : Text)
    → InSchema (s ∷ schema) (c ∷ t)
    → (c ≡ s) × ((c == b'.') ≡ false) × InSchema schema t
InSchema-tail c t s schema (clean, inl e) =
    let same : c ≡ s = ground (arith, e) in
    (
      same,
      not_dot c (λ q. clean (inl (sym q ∙ same))),
      ((λ m. clean (inr m)), inl (ground (arith, e))),
    )
InSchema-tail c t s schema (clean, inr (rest, e)) =
    let same : c ≡ s = ground (arith, e) in
    (
      same,
      not_dot c (λ q. clean (inl (sym q ∙ same))),
      ((λ m. clean (inr m)), inr (rest, ground (arith, e))),
    )

pub InSchema-schema_of : (t schema : Text) → InSchema schema t → schema_of t ≡ schema
InSchema-schema_of [] [] h = schema_of_nil
InSchema-schema_of [] (s ∷ schema) (clean, inl e) = absurd (cc e)
InSchema-schema_of [] (s ∷ schema) (clean, inr (rest, e)) = absurd (cc e)
InSchema-schema_of (c ∷ t) [] (clean, inl e) = absurd (cc e)
InSchema-schema_of (c ∷ t) [] (clean, inr (rest, e)) = ap schema_of e ∙ schema_of_dot rest
InSchema-schema_of (c ∷ t) (s ∷ schema) h =
    let (same, other, rest) = InSchema-tail c t s schema h in
    schema_of_other c t other
    ∙ (ap (λ d. d ∷ schema_of t) same ∙ ap (λ r. s ∷ r) (InSchema-schema_of t schema rest))
