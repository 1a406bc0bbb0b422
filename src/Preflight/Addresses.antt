-- ===== src/Preflight/Addresses.antt =====
-- `maintenance_connection_string` (pg_dbmigrator/src/preflight.rs): the same server's database
-- `postgres`. Where no `://` stands before the query and one stands in it, the code's slice panics;
-- such an address, which `EndpointConfig::parse` refuses, has no scheme here.
use pg_migrator.Base.{
  Text, lit, split_once, rsplit_once, split_at_text, Option, none, some, [], ◌++◌,
}

-- what stands before the host (the scheme and the credentials), and the rest
unfoldable pub split_host : Text → Text × Text
split_host address = elim (split_at_text (lit "://") address) [
  | none ↦ elim (rsplit_once b'@' address) [
    | none ↦ ([], address)
    | some (login, host) ↦ (login ++ lit "@", host)
  ]
  | some (scheme, rest) ↦ elim (rsplit_once b'@' rest) [
    | none ↦ (scheme ++ lit "://", rest)
    | some (login, host) ↦ (scheme ++ (lit "://" ++ (login ++ lit "@")), host)
  ]
]

-- the address up to the first slash after the host
unfoldable pub before_database : Text → Option Text
before_database address =
    let (prefix, host) = split_host address in
    elim (split_once b'/' host) [ none ↦ none | some (server, database) ↦ some (prefix ++ server) ]

unfoldable pub maintenance_connection_string : Text → Text
maintenance_connection_string conn = elim (split_once b'?' conn) [
  | none ↦ elim (before_database conn) [ none ↦ conn | some server ↦ server ++ lit "/postgres" ]
  | some (address, query) ↦ elim (before_database address) [
    | none ↦ conn
    | some server ↦ server ++ (lit "/postgres?" ++ query)
  ]
]
