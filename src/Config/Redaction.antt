-- ===== src/Config/Redaction.antt =====
-- What `EndpointConfig::redacted` of pg_dbmigrator/src/config.rs takes out of a connection string.
use pg_migrator.Base.{
  length, ◌≤◌, ◌∙◌, ap, Option-cases, Text, lit, some, none, [], ◌∷◌, ◌++◌, ◌≡◌, ◌≢◌, ◌⊎◌, inl, inr,
  refl, split_at_text, strip_prefix, arith,
}
use pg_migrator.Config.{EndpointConfig}
use pg_migrator.Config.Endpoint.{password_text, redacted, replace_first}

prefix_found : (p s rest : Text) → strip_prefix p s ≡ some rest → s ≡ p ++ rest
unfolding strip_prefix
prefix_found [] s rest h = ground (arith, h)
prefix_found (c ∷ p) [] rest h = ground (arith, h)
prefix_found (c ∷ p) (d ∷ s) rest h = ground (arith, h, prefix_found p s rest)

prefix_missing : (p rest : Text) → strip_prefix p (p ++ rest) ≡ some rest
unfolding strip_prefix
prefix_missing [] rest = refl
prefix_missing (c ∷ p) rest = ground (arith, prefix_missing p rest)

found_around : (p s a b : Text) → split_at_text p s ≡ some (a, b) → s ≡ a ++ (p ++ b)
unfolding split_at_text
found_around p [] a b h = ground (arith, h, prefix_found p [] b)
found_around p (c ∷ s) a b h = grind (arith, h, prefix_found p (c ∷ s) b, found_around p s)

occurrence_found : (p a b : Text) → split_at_text p (a ++ (p ++ b)) ≢ none
unfolding split_at_text
occurrence_found [] [] [] h = ground (arith, h, prefix_missing [] [])
occurrence_found [] [] (c ∷ b) h = ground (arith, h, prefix_missing [] (c ∷ b))
occurrence_found (c ∷ p) [] b h = ground (arith, h, prefix_missing (c ∷ p) b)
occurrence_found p (d ∷ a) b h = ground (arith, h, occurrence_found p a b)

-- No occurrence is before the one that is found.
first_found :
    (p s a b a' b' : Text)
    → split_at_text p s ≡ some (a, b)
    → s ≡ a' ++ (p ++ b')
    → length a ≤ length a'
unfolding split_at_text
first_found p [] a b a' b' h e = ground (arith, h)
first_found p (c ∷ s) a b [] b' h e = ground (arith, h, ap (strip_prefix p) e ∙ prefix_missing p b')
first_found p (c ∷ s) a b (d ∷ a') b' h e = elim (Option-cases (strip_prefix p (c ∷ s))) [
  | inl n ↦ elim (Option-cases (split_at_text p s)) [
    | inl m ↦ ground (arith, h, n, m)
    | inr ((x, y), m) ↦
        let k = first_found p s x y a' b' m (ground (arith, e)) in ground (arith, h, n, m, k)
  ]
  | inr (rest, n) ↦ ground (arith, h, n)
]

-- Where an address has a password, its redacted form is either the address with the first place
-- that reads `:password@` masked, or, when there is no such place, the address as it is.
pub redacted_lem :
    (e : EndpointConfig)
    → e.password ≢ []
    → ((before after : Text) × (e.connection_string ≡ before ++ (password_text e ++ after))
        × (redacted e ≡ before ++ (lit ":****@" ++ after))
        × ((before' after' : Text)
            → e.connection_string ≡ before' ++ (password_text e ++ after')
            → length before ≤ length before'))
      ⊎ (((before after : Text) → e.connection_string ≢ before ++ (password_text e ++ after))
          × (redacted e ≡ e.connection_string))
unfolding redacted replace_first
redacted_lem e secret = elim (Option-cases (split_at_text (password_text e) e.connection_string)) [
  | inl absent ↦ inr (
    (λ before after same. occurrence_found (password_text e) before after (cc)),
    ground (arith, secret, absent),
  )
  | inr ((before, after), found) ↦ inl (
    before,
    after,
    found_around (password_text e) e.connection_string before after found,
    ground (arith, secret, found),
    (λ before' after' same.
        first_found (password_text e) e.connection_string before after before' after' found same),
  )
]
