-- ===== src/Snapshot/Separators.antt =====
-- Texts with a separator, for the addresses of pg_dbmigrator/src/snapshot.rs.
use pg_migrator.Base.{
  ◌⊎◌, is_some, Option-cases, ℕ, In, Text, lit, contains, strip_prefix, split_once, split_char,
  List, some, none, [], ◌∷◌, ◌++◌, false, ◌≡◌, ◌≢◌, inl, inr, refl, arith,
}

List-cases : (l : List Text) → (l ≡ []) ⊎ ((x : Text) × (xs : List Text) × (l ≡ x ∷ xs))
List-cases [] = inl refl
List-cases (x ∷ xs) = inr (x, xs, refl)

split_char_filled : (c : ℕ) (s : Text) → split_char c s ≢ []
unfolding split_char
split_char_filled c [] h = ground (arith, h)
split_char_filled c (d ∷ s) h = elim (List-cases (split_char c s)) [
  | inl e ↦ ground (arith, h, e)
  | inr (part, parts, e) ↦ ground (arith, h, e)
]

pub split_char-append :
    (c : ℕ) (s r : Text) → split_char c (s ++ c ∷ r) ≡ split_char c s ++ split_char c r
unfolding split_char
split_char-append c [] r = ground arith
split_char-append c (d ∷ s) r =
    let ih = split_char-append c s r in
    elim (List-cases (split_char c s)) [
      | inl e ↦ absurd (split_char_filled c s e)
      | inr (part, parts, e) ↦ ground (arith, ih, e)
    ]

-- text with a first separator, and more text
pub split_once-append :
    (c : ℕ) (s r a b : Text)
    → split_once c s ≡ some (a, b)
    → split_once c (s ++ r) ≡ some (a, b ++ r)
unfolding split_once
split_once-append c [] r a b h = ground (arith, h)
split_once-append c (d ∷ s) r a b h = elim (Option-cases (split_once c s)) [
  | inl e ↦ ground (arith, h, e)
  | inr ((x, y), e) ↦ ground (arith, h, e, split_once-append c s r x y e)
]

-- text without a separator, then a separator and more text
pub split_once-new :
    (c : ℕ) (s r : Text) → split_once c s ≡ none → split_once c (s ++ c ∷ r) ≡ some (s, r)
unfolding split_once
split_once-new c [] r h = ground (arith, h)
split_once-new c (d ∷ s) r h = elim (Option-cases (split_once c s)) [
  | inl e ↦ ground (arith, h, e, split_once-new c s r e)
  | inr ((x, y), e) ↦ ground (arith, h, e)
]

pub contains-split_once : (s : Text) → contains (lit "?") s ≡ is_some (split_once b'?' s)
unfolding contains split_once strip_prefix lit
contains-split_once [] = refl
contains-split_once (d ∷ s) = elim (Option-cases (split_once b'?' s)) [
  | inl e ↦ ground (arith, e, contains-split_once s)
  | inr ((x, y), e) ↦ ground (arith, e, contains-split_once s)
]

-- A pattern without the character is not found across it.
strip_prefix-stop :
    (c : ℕ) (p s r : Text)
    → ¬ (In c p)
    → strip_prefix p s ≡ none
    → strip_prefix p (s ++ c ∷ r) ≡ none
unfolding strip_prefix
strip_prefix-stop c [] [] r n h = ground (arith, h)
strip_prefix-stop c [] (e ∷ s) r n h = ground (arith, h)
strip_prefix-stop c (d ∷ p) [] r n h = ground (arith, h, n)
strip_prefix-stop c (d ∷ p) (e ∷ s) r n h =
    ground (arith, h, strip_prefix-stop c p s r (λ m. n (inr m)))

pub contains-stop :
    (c : ℕ) (p s r : Text)
    → ¬ (In c p)
    → contains p s ≡ false
    → contains p (c ∷ r) ≡ false
    → contains p (s ++ c ∷ r) ≡ false
unfolding contains
contains-stop c p [] r n h k = k
contains-stop c p (d ∷ s) r n h k = elim (Option-cases (strip_prefix p (d ∷ s))) [
  | inl e ↦ ground (arith, h, k, strip_prefix-stop c p (d ∷ s) r n e, contains-stop c p s r n)
  | inr (x, e) ↦ ground (arith, h, e)
]
