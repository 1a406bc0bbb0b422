-- ===== src/Config/Endpoint.antt =====
-- pg_dbmigrator/src/config.rs: `EndpointConfig::parse` and `EndpointConfig::redacted`. The URL
-- parser is a parameter.
use pg_migrator.Base.{
  ◌==◌, ℕ, Text, lit, Option, none, some, List, [], ◌∷◌, ◌++◌, Bool, ◌||◌, is_empty, if◌then◌else◌,
  text_eq, split_at_text, split_char,
}
use pg_migrator.Error.{Result, ok, err, invalid_connection_string}
use pg_migrator.Config.{EndpointConfig}

-- What `url::Url` gives of a URL; user and password are percent-encoded.
pub record Url : Type 0 where
  pub scheme : Text
  pub host_str : Option Text
  pub port : Option ℕ
  pub path : Text
  pub username : Text
  pub password : Option Text

-- what `Url::parse` returns, its error by its text
pub data Parsed : Type 0 where
  url : Url → Parsed
  rejected : Text → Parsed

-- `option.unwrap_or(default)`
abbrev pub or_default {ℓ} : {A : Type ℓ} → Option A → A → A
or_default none default = default
or_default (some a) default = a

-- `s.trim_start_matches(c)`
unfoldable pub trim_start_matches : ℕ → Text → Text
trim_start_matches c [] = []
trim_start_matches c (d ∷ s) = let rest = trim_start_matches c s in if d == c then rest else d ∷ s

-- `list.next().unwrap_or("")`
abbrev first_part : List Text → Text
first_part [] = []
first_part (part ∷ parts) = part

unfoldable pub endpoint_of : Text → Url → Text → EndpointConfig
endpoint_of conn u host = record {
  connection_string = conn;
  host = host;
  port = or_default u.port 5432;
  database = first_part (split_char b'?' (trim_start_matches b'/' u.path));
  user = u.username;
  password = or_default u.password [];
}

-- `matches!(url.scheme(), "postgres" | "postgresql")`
unfoldable pub is_postgres : Url → Bool
is_postgres u = text_eq u.scheme (lit "postgres") || text_eq u.scheme (lit "postgresql")

unfoldable pub of_url : Text → Url → Result EndpointConfig
of_url conn u =
    if is_postgres u
    then elim u.host_str [
      | none ↦ err (invalid_connection_string (conn ++ lit ": missing host"))
      | some host ↦ ok (endpoint_of conn u host)
    ]
    else err (invalid_connection_string (lit "unsupported scheme `" ++ (u.scheme ++ lit "`")))

module _ (parse_url : Text → Parsed) where
  abbrev of_parsed : Text → Parsed → Result EndpointConfig
  of_parsed conn (rejected e) = err (invalid_connection_string (conn ++ (lit ": " ++ e)))
  of_parsed conn (url u) = of_url conn u

  -- `EndpointConfig::parse`
  unfoldable pub parse : Text → Result EndpointConfig
  parse conn = of_parsed conn (parse_url conn)

-- `s.replacen(p, r, 1)`
unfoldable pub replace_first : Text → Text → Text → Text
replace_first p r s = elim (split_at_text p s) [ some (a, b) ↦ a ++ (r ++ b) | none ↦ s ]

-- the password as `redacted` looks for it
unfoldable pub password_text : EndpointConfig → Text
password_text e = lit ":" ++ (e.password ++ lit "@")

unfoldable pub redacted : EndpointConfig → Text
redacted e =
    if is_empty e.password
    then e.connection_string
    else replace_first (password_text e) (lit ":****@") e.connection_string
