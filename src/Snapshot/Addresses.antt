-- ===== src/Snapshot/Addresses.antt =====
-- The address of the connection that holds the snapshot (pg_dbmigrator/src/snapshot.rs).
use pg_migrator.Base.{
  Option-cases, Bool, sym, if◌then◌else◌, Text, lit, contains, strip_prefix, some, [], ◌∷◌, ◌++◌,
  true, false, append_assoc, append-nil, ◌≡◌, inl, inr, refl, ap, ◌∙◌, arith,
}
use pg_migrator.Snapshot.{
  ensure_replication_qs, with_snapshot_keepalives, snapshot_keepalive_params,
}

strip_prefix-append : (p s : Text) → strip_prefix p (p ++ s) ≡ some s
unfolding strip_prefix
strip_prefix-append [] s = refl
strip_prefix-append (c ∷ p) s = ground (arith, strip_prefix-append p s)

contains-prefix : (p s : Text) → contains p (p ++ s) ≡ true
unfolding contains
contains-prefix [] [] = unfold strip_prefix in refl
contains-prefix [] (d ∷ s) = unfold strip_prefix in refl
contains-prefix (c ∷ p) s = ground (arith, strip_prefix-append (c ∷ p) s)

contains-middle : (p before after : Text) → contains p (before ++ (p ++ after)) ≡ true
unfolding contains
contains-middle p [] after = contains-prefix p after
contains-middle p (c ∷ before) after = ground (arith, contains-middle p before after)

strip_prefix-extend :
    (p s t r : Text) → strip_prefix p s ≡ some r → strip_prefix p (s ++ t) ≡ some (r ++ t)
unfolding strip_prefix
strip_prefix-extend [] s t r h = ground arith
strip_prefix-extend (c ∷ p) [] t r h = cc
strip_prefix-extend (c ∷ p) (d ∷ s) t r h = ground (arith, strip_prefix-extend p s t r)

found_prefix : (p t : Text) → contains p [] ≡ true → contains p t ≡ true
unfolding contains strip_prefix
found_prefix [] [] h = refl
found_prefix [] (c ∷ t) h = refl
found_prefix (c ∷ p) t h = cc

-- a pattern stays where more text follows
contains-extend : (p s t : Text) → contains p s ≡ true → contains p (s ++ t) ≡ true
unfolding contains
contains-extend p [] t h = found_prefix p t h
contains-extend p (c ∷ s) t h = elim (Option-cases (strip_prefix p (c ∷ s))) [
  | inl e ↦ ground (arith, contains-extend p s t)
  | inr (r, e) ↦ ground (arith, strip_prefix-extend p (c ∷ s) t r e)
]

-- and where text stands before it
contains-after : (p before s : Text) → contains p s ≡ true → contains p (before ++ s) ≡ true
unfolding contains
contains-after p [] s h = h
contains-after p (c ∷ before) s h = ground (arith, contains-after p before s h)

abbrev Extends : Text → Text → Type 0
Extends conn out = (suffix : Text) × (out ≡ conn ++ suffix)

unchanged : (conn : Text) → Extends conn conn
unchanged conn = ([], sym (append-nil conn))

-- with a test that has the pattern, or an extension that has it
either :
    (p conn added : Text) (b : Bool)
    → contains p conn ≡ b
    → contains p added ≡ true
    → Extends conn (if b then conn else conn ++ added)
      × (contains p (if b then conn else conn ++ added) ≡ true)
either p conn added true e h = (unchanged conn, e)
either p conn added false e h = ((added, refl), contains-after p conn added h)

added_replication :
    (b : Bool)
    → contains
        (lit "replication=")
        (if b then lit "&replication=database" else lit "?replication=database")
      ≡ true
unfolding contains strip_prefix lit
added_replication true = refl
added_replication false = refl

added_keepalives :
    (b : Bool)
    → contains (lit "keepalives") ((if b then lit "&" else lit "?") ++ snapshot_keepalive_params)
      ≡ true
unfolding contains strip_prefix lit
added_keepalives true = refl
added_keepalives false = refl

replication_by :
    (conn : Text) (b q : Bool)
    → contains (lit "replication=") conn ≡ b
    → Extends conn (
        if b
        then conn
        else if q
        then conn ++ lit "&replication=database"
        else conn ++ lit "?replication=database")
      × (contains (lit "replication=") (
            if b
            then conn
            else if q
            then conn ++ lit "&replication=database"
            else conn ++ lit "?replication=database")
          ≡ true)
replication_by conn true q e = (unchanged conn, e)
replication_by conn false true e = (
  (lit "&replication=database", refl),
  contains-after (lit "replication=") conn _ (added_replication true),
)
replication_by conn false false e = (
  (lit "?replication=database", refl),
  contains-after (lit "replication=") conn _ (added_replication false),
)

replication_added :
    (conn : Text)
    → Extends conn (ensure_replication_qs conn)
      × (contains (lit "replication=") (ensure_replication_qs conn) ≡ true)
unfolding ensure_replication_qs
replication_added conn =
    replication_by conn (contains (lit "replication=") conn) (contains (lit "?") conn) refl

keepalives_added :
    (conn : Text)
    → Extends conn (with_snapshot_keepalives conn)
      × (contains (lit "keepalives") (with_snapshot_keepalives conn) ≡ true)
unfolding with_snapshot_keepalives
keepalives_added conn =
    either (lit "keepalives") conn
      ((if contains (lit "?") conn then lit "&" else lit "?") ++ snapshot_keepalive_params)
      (contains (lit "keepalives") conn) refl (added_keepalives (contains (lit "?") conn))

kept_replication :
    (conn : Text) → contains (lit "replication=") conn ≡ true → ensure_replication_qs conn ≡ conn
unfolding ensure_replication_qs
kept_replication conn h = rw h

kept_keepalives :
    (conn : Text) → contains (lit "keepalives") conn ≡ true → with_snapshot_keepalives conn ≡ conn
unfolding with_snapshot_keepalives
kept_keepalives conn h = rw h

-- the address of `prepare_replication_slot`
abbrev pub slot_address : Text → Text
slot_address conn = with_snapshot_keepalives (ensure_replication_qs conn)

-- The address that the slot's connection is opened with is the given one with text after it, asks
-- for replication and for keepalives, and is left as it is when the additions are made again.
pub slot_address_grows :
    (conn : Text)
    → ((suffix : Text) × (slot_address conn ≡ conn ++ suffix))
      × (contains (lit "replication=") (slot_address conn) ≡ true)
      × (contains (lit "keepalives") (slot_address conn) ≡ true)
      × (slot_address (slot_address conn) ≡ slot_address conn)
slot_address_grows conn =
    let ((first, e), h) = replication_added conn in
    let ((second, f), k) = keepalives_added (ensure_replication_qs conn) in
    let replicates : contains (lit "replication=") (slot_address conn) ≡ true =
      rw f (contains-extend (lit "replication=") (ensure_replication_qs conn) second h) in
    (
      (first ++ second, f ∙ ap (λ s. s ++ second) e ∙ append_assoc conn first second),
      replicates,
      k,
      ap with_snapshot_keepalives (kept_replication (slot_address conn) replicates)
          ∙ kept_keepalives (slot_address conn) k,
    )
