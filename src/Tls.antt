-- ===== src/Tls.antt =====
-- pg_dbmigrator/src/tls.rs: the mode that a connection string asks for and the connector that is
-- made for it. rustls and the certificate store are left out: what is kept of a connector is whether
-- there is one and whether it checks certificates.
pub mod Modes
use pg_migrator.Error.{Result}
use pg_migrator.Base.{
  Text, lit, text_eq, trim, to_ascii_lowercase, split_once, split_char, Option, none, some, List,
  [], ◌∷◌, Bool, ◌||◌, if◌then◌else◌,
}

pub data SslMode : Type 0 where
  disable require verify_full : SslMode

-- `SslMode::parse`
unfoldable pub parse : Text → SslMode
parse raw =
    let mode = to_ascii_lowercase (trim raw) in
    if text_eq mode (lit "disable")
    then disable
    else if text_eq mode (lit "verify-ca") || text_eq mode (lit "verify-full")
    then verify_full
    else require

-- the value of a pair whose key is `sslmode`
unfoldable pub sslmode_value : Text → Option Text
sslmode_value kv = elim (split_once b'=' kv) [
  | none ↦ none
  | some (key, value) ↦ if text_eq key (lit "sslmode") then some value else none
]

-- the value of the first such pair
unfoldable pub first_sslmode : List Text → Option Text
first_sslmode [] = none
first_sslmode (kv ∷ rest) = elim (sslmode_value kv) [
  | some value ↦ some value
  | none ↦ first_sslmode rest
]

unfoldable pub mode_of_pairs : List Text → SslMode
mode_of_pairs pairs = elim (first_sslmode pairs) [ none ↦ require | some value ↦ parse value ]

-- `SslMode::from_connection_string`
unfoldable pub from_connection_string : Text → SslMode
from_connection_string conn = elim (split_once b'?' conn) [
  | none ↦ require
  | some (address, query) ↦ mode_of_pairs (split_char b'&' query)
]

-- A connection without TLS, or with TLS and a verifier that accepts every certificate or checks it.
pub data Connector : Type 0 where
  no_tls accepting checking : Connector

-- `make_tls_connector`
unfoldable pub make_tls_connector : SslMode → Connector
make_tls_connector disable = no_tls
make_tls_connector require = accepting
make_tls_connector verify_full = checking

-- `connect_with_sslmode`. `connect` stands for `tokio_postgres::connect`, which reads the connection
-- string once more; the task that drives the connection is not modelled.
unfoldable pub connect_with_sslmode {ℓ} :
    {Client : Type ℓ} → (Text → Connector → Result Client) → Text → Result Client
connect_with_sslmode connect conn = connect conn (make_tls_connector (from_connection_string conn))
