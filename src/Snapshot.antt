-- ===== src/Snapshot.antt =====
-- pg_dbmigrator/src/snapshot.rs: the connection that creates the replication slot and holds its
-- snapshot. The replication stream of pg_walstream is a parameter.
pub mod Addresses
pub mod Parameters
pub mod Separators
use pg_migrator.Base.{ℕ, Text, lit, contains, Option, ◌++◌, if◌then◌else◌}
use pg_migrator.Error.{Result, ok, ◌>>=◌, ◌>>◌}
use pg_migrator.Config.{OnlineOptions, validate_online}

unfoldable pub ensure_replication_qs : Text → Text
ensure_replication_qs conn =
    if contains (lit "replication=") conn
    then conn
    else if contains (lit "?") conn
    then conn ++ lit "&replication=database"
    else conn ++ lit "?replication=database"

-- `SNAPSHOT_KEEPALIVE_PARAMS`
abbrev pub snapshot_keepalive_params : Text
snapshot_keepalive_params = lit "keepalives=1&keepalives_idle=60&keepalives_interval=10"

unfoldable pub with_snapshot_keepalives : Text → Text
with_snapshot_keepalives conn =
    if contains (lit "keepalives") conn
    then conn
    else conn
      ++ ((if contains (lit "?") conn then lit "&" else lit "?") ++ snapshot_keepalive_params)

-- The fields of `ReplicationStreamConfig` that the options determine.
pub record StreamConfig : Type 0 where
  pub slot_name : Text
  pub publication : Text
  pub protocol_version : ℕ
  pub snapshot : Text

unfoldable pub build_stream_config : OnlineOptions → StreamConfig
build_stream_config o = record {
  slot_name = o.slot_name;
  publication = o.publication;
  protocol_version = o.protocol_version;
  snapshot = lit "export";
}

-- `LogicalReplicationStream`
pub record Streams : Type 0 where
  pub open_stream : Text → StreamConfig → Result (Unit {0})
  pub ensure_replication_slot : Result (Unit {0})
  pub exported_snapshot_name : Option Text

-- the name of the snapshot, which is what is kept of `PreparedSlot`
unfoldable pub prepare_replication_slot : Streams → Text → OnlineOptions → Result (Option Text)
prepare_replication_slot s conn o = do
  validate_online o
  s.open_stream (with_snapshot_keepalives (ensure_replication_qs conn)) (build_stream_config o)
  s.ensure_replication_slot
  ok s.exported_snapshot_name
