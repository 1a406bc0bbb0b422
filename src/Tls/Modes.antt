-- ===== src/Tls/Modes.antt =====
-- With which connector pg_dbmigrator/src/tls.rs opens a connection.
use pg_migrator.Base.{
  Text, lit, trim, to_ascii_lowercase, split_once, split_char, Option, none, some, ◌≡◌, ◌≢◌, ◌⊎◌,
  ◌↔◌,
}
use pg_migrator.Tls.{SslMode, require, parse, first_sslmode}

-- The connection string's query holds an `sslmode`, whose first value is, up to white space and
-- case, one that satisfies the predicate.
abbrev pub Asks : (Text → Type 0) → Text → Type 0
Asks Is conn =
    (address : Text) × (query : Text) × (value : Text) × (split_once b'?' conn
      ≡ some (address, query))
    × (first_sslmode (split_char b'&' query) ≡ some value)
    × Is (to_ascii_lowercase (trim value))

abbrev pub IsDisable : Text → Type 0
IsDisable mode = mode ≡ lit "disable"

abbrev pub IsVerify : Text → Type 0
IsVerify mode = (mode ≡ lit "verify-ca") ⊎ (mode ≡ lit "verify-full")

-- A mode that is not the default is asked for.
module _ (m : SslMode) (Is : Text → Type 0)
    (parsed : (raw : Text) → (parse raw ≡ m) ↔ Is (to_ascii_lowercase (trim raw)))
    (chosen : require ≢ m) where
  abbrev mode_of : Option Text → SslMode
  mode_of o = elim o [ none ↦ require | some value ↦ parse value ]

  abbrev mode_in : Option (Text × Text) → SslMode
  mode_in o = elim o [
    | none ↦ require
    | some (address, query) ↦ mode_of (first_sslmode (split_char b'&' query))
  ]
