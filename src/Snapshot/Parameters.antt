-- ===== src/Snapshot/Parameters.antt =====
-- The parameters of the address that the slot's connection is opened with
-- (pg_dbmigrator/src/snapshot.rs).
use pg_migrator.Base.{
  ℕ, In, Text, lit, contains, strip_prefix, split_once, split_char, List, Option, some, none, [],
  ◌∷◌, ◌++◌, true, false, append_assoc, ◌≡◌, refl, ap, ◌∙◌, arith,
}
use pg_migrator.Snapshot.Separators.{
  split_char-append, split_once-append, split_once-new, contains-split_once, contains-stop,
}
use pg_migrator.Snapshot.Addresses.{slot_address, slot_address_grows}
use pg_migrator.Snapshot.{
  ensure_replication_qs, with_snapshot_keepalives, snapshot_keepalive_params,
}

-- the address and the parameters of its query
abbrev pub address_of : Option (Text × Text) → Text → Text
address_of none conn = conn
address_of (some (address, query)) conn = address

abbrev pub parameters_of : Option (Text × Text) → List Text
parameters_of none = []
parameters_of (some (address, query)) = split_char b'&' query

-- the parameters that are added
abbrev pub added : List Text
added =
    lit "replication=database"
    ∷ lit "keepalives=1"
    ∷ lit "keepalives_idle=60"
    ∷ lit "keepalives_interval=10"
    ∷ []

added_split :
    split_char b'&' (lit "replication=database" ++ b'&' ∷ snapshot_keepalive_params) ≡ added
unfolding split_char lit
added_split = refl

-- a connection string with a query whose keepalives are not set
keepalives_after :
    (s a b : Text)
    → split_once b'?' s ≡ some (a, b)
    → contains (lit "keepalives") s ≡ false
    → with_snapshot_keepalives s ≡ s ++ b'&' ∷ snapshot_keepalive_params
unfolding with_snapshot_keepalives
keepalives_after s a b e h =
    let asks : contains (lit "?") s ≡ true = rw (contains-split_once s) (rw e refl) in
    rw (h, asks) (unfold lit in refl)

clean_of :
    (s : Text) (sep : ℕ)
    → ¬ (In sep (lit "keepalives"))
    → contains (lit "keepalives") (sep ∷ lit "replication=database") ≡ false
    → contains (lit "keepalives") s ≡ false
    → contains (lit "keepalives") (s ++ sep ∷ lit "replication=database") ≡ false
clean_of s sep n k h = contains-stop sep (lit "keepalives") s (lit "replication=database") n h k

no_question : ¬ (In b'?' (lit "keepalives"))
unfolding lit
no_question m = ground (arith, m)

no_ampersand : ¬ (In b'&' (lit "keepalives"))
unfolding lit
no_ampersand m = ground (arith, m)

clean_question : contains (lit "keepalives") (b'?' ∷ lit "replication=database") ≡ false
unfolding contains strip_prefix lit
clean_question = refl

clean_ampersand : contains (lit "keepalives") (b'&' ∷ lit "replication=database") ≡ false
unfolding contains strip_prefix lit
clean_ampersand = refl

-- The address is kept, and the parameters are the old ones and then the added ones.
abbrev pub Extended : Text → Text → Type 0
Extended conn out =
    let before = split_once b'?' conn in
    let after = split_once b'?' out in
    (address_of after out ≡ address_of before conn)
    × (parameters_of after ≡ parameters_of before ++ added)

Extended-intro :
    (conn out : Text) (before after : Option (Text × Text))
    → split_once b'?' conn ≡ before
    → split_once b'?' out ≡ after
    → (address_of after out ≡ address_of before conn)
      × (parameters_of after ≡ parameters_of before ++ added)
    → Extended conn out
Extended-intro conn out before after e f h = rw (e, f) h

-- after the first addition
with_keepalives :
    (conn s a b : Text)
    → ensure_replication_qs conn ≡ s
    → split_once b'?' s ≡ some (a, b)
    → contains (lit "keepalives") s ≡ false
    → split_once b'?' (slot_address conn) ≡ some (a, b ++ b'&' ∷ snapshot_keepalive_params)
with_keepalives conn s a b first e k =
    ap (λ x. split_once b'?' (with_snapshot_keepalives x)) first
    ∙ (ap (split_once b'?') (keepalives_after s a b e k)
        ∙ split_once-append b'?' s (b'&' ∷ snapshot_keepalive_params) a b e)

first_parameter :
    (conn : Text)
    → split_once b'?' conn ≡ none
    → contains (lit "replication=") conn ≡ false
    → ensure_replication_qs conn ≡ conn ++ b'?' ∷ lit "replication=database"
unfolding ensure_replication_qs
first_parameter conn e r =
    let asks : contains (lit "?") conn ≡ false = rw (contains-split_once conn) (rw e refl) in
    rw (r, asks) (unfold lit in refl)

further_parameter :
    (conn a b : Text)
    → split_once b'?' conn ≡ some (a, b)
    → contains (lit "replication=") conn ≡ false
    → ensure_replication_qs conn ≡ conn ++ b'&' ∷ lit "replication=database"
unfolding ensure_replication_qs
further_parameter conn a b e r =
    let asks : contains (lit "?") conn ≡ true = rw (contains-split_once conn) (rw e refl) in
    rw (r, asks) (unfold lit in refl)

Extended-slot_address :
    (conn : Text) (o : Option (Text × Text))
    → split_once b'?' conn ≡ o
    → contains (lit "replication=") conn ≡ false
    → contains (lit "keepalives") conn ≡ false
    → Extended conn (slot_address conn)
Extended-slot_address conn none e r k =
    let after =
      with_keepalives conn _ conn (lit "replication=database") (first_parameter conn e r)
        (split_once-new b'?' conn (lit "replication=database") e)
        (clean_of conn b'?' no_question clean_question k) in
    Extended-intro conn (slot_address conn) none _ e after (refl, added_split)
Extended-slot_address conn (some (a, b)) e r k =
    let more = b'&' ∷ lit "replication=database" in
    let after =
      with_keepalives conn _ a (b ++ more) (further_parameter conn a b e r)
        (split_once-append b'?' conn more a b e)
        (clean_of conn b'&' no_ampersand clean_ampersand k) in
    Extended-intro conn (slot_address conn) (some (a, b)) _ e after (
      refl,
      ap (split_char b'&') (append_assoc b more (b'&' ∷ snapshot_keepalive_params))
          ∙ (split_char-append b'&' b
                (lit "replication=database" ++ b'&' ∷ snapshot_keepalive_params)
              ∙ ap (λ x. split_char b'&' b ++ x) added_split),
    )

-- The address that the slot's connection is opened with is the given one with text after it, and is
-- left as it is when the additions are made again. Where the given one holds neither `replication=`
-- nor `keepalives`, what stands before its query is kept, and the parameters of the query are the
-- given ones and then `replication=database` and the three of the keepalives.
pub slot_address_lem :
    (conn : Text)
    → ((suffix : Text) × (slot_address conn ≡ conn ++ suffix))
      × (slot_address (slot_address conn) ≡ slot_address conn)
      × (contains (lit "replication=") (slot_address conn) ≡ true)
      × (contains (lit "keepalives") (slot_address conn) ≡ true)
      × (contains (lit "replication=") conn ≡ false
          → contains (lit "keepalives") conn ≡ false
          → Extended conn (slot_address conn))
slot_address_lem conn =
    let (suffix, replication, keepalives, again) = slot_address_grows conn in
    (suffix, again, replication, keepalives, Extended-slot_address conn (split_once b'?' conn) refl)
