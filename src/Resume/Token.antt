-- ===== src/Resume/Token.antt =====
-- `CompletedStage` and `ResumeToken` (pg_dbmigrator/src/resume.rs). The set of completed stages is
-- its characteristic function, one Boolean for each stage.
use pg_migrator.Base.{
  ℕ, Text, lit, text_eq, Option, none, some, List, ◌++◌, Bool, true, false, not, if◌then◌else◌,
}
use pg_migrator.Error.{Result, ◌>>◌, refuse_if, token_config_hash, token_mode}
use pg_migrator.Config.{MigrationMode, offline, online, verify, is_online, MigrationConfig}
use pg_migrator.Resume.Hash.{HashItem, hash_input}

pub data CompletedStage : Type 0 where
  source_vacuum prepare_snapshot dump restore analyze verified : CompletedStage

pub record StageSet : Type 0 where
  pub has_source_vacuum : Bool
  pub has_prepare_snapshot : Bool
  pub has_dump : Bool
  pub has_restore : Bool
  pub has_analyze : Bool
  pub has_verified : Bool

abbrev pub no_stages : StageSet
no_stages = record {
  has_source_vacuum = false;
  has_prepare_snapshot = false;
  has_dump = false;
  has_restore = false;
  has_analyze = false;
  has_verified = false;
}

-- `completed.insert(stage)`
abbrev pub add_stage : CompletedStage → StageSet → StageSet
add_stage source_vacuum s = record s { has_source_vacuum = true }
add_stage prepare_snapshot s = record s { has_prepare_snapshot = true }
add_stage dump s = record s { has_dump = true }
add_stage restore s = record s { has_restore = true }
add_stage analyze s = record s { has_analyze = true }
add_stage verified s = record s { has_verified = true }

-- `completed.contains(&stage)`
abbrev pub has_stage : CompletedStage → StageSet → Bool
has_stage source_vacuum s = s.has_source_vacuum
has_stage prepare_snapshot s = s.has_prepare_snapshot
has_stage dump s = s.has_dump
has_stage restore s = s.has_restore
has_stage analyze s = s.has_analyze
has_stage verified s = s.has_verified

-- `updated_at` is left out: it is written and never read.
pub record ResumeToken : Type 0 where
  pub schema_version : ℕ
  pub config_hash : Text
  pub mode : Text
  pub completed : StageSet
  pub dump_path : Text
  pub slot_name : Option Text
  pub subscription_name : Option Text
  pub publication : Option Text
  pub snapshot_name : Option Text
  pub last_applied_lsn : Option ℕ
  pub pub_auto_created : Bool

abbrev pub resume_schema_version : ℕ
resume_schema_version = 1

-- the name of a mode in the token
unfoldable pub mode_name : MigrationMode → Text
mode_name offline = lit "offline"
mode_name online = lit "online"
mode_name verify = lit "verify"

abbrev only_online : MigrationConfig → Text → Option Text
only_online c name = if is_online c.mode then some name else none

-- `hasher` stands for `DefaultHasher` and the formatting of its value.
module _ (hasher : List HashItem → Text) where
  unfoldable pub config_hash : MigrationConfig → Text
  config_hash c = hasher (hash_input c)

  -- `ResumeToken::new`
  unfoldable pub new_token : MigrationConfig → Text → ResumeToken
  new_token c path = record {
    schema_version = resume_schema_version;
    config_hash = config_hash c;
    mode = mode_name c.mode;
    completed = no_stages;
    dump_path = path;
    slot_name = only_online c c.online.slot_name;
    subscription_name = only_online c c.online.subscription_name;
    publication = only_online c c.online.publication;
    snapshot_name = none;
    last_applied_lsn = none;
    pub_auto_created = false;
  }

  unfoldable pub check_compatible : ResumeToken → MigrationConfig → Result (Unit {0})
  check_compatible t c = do
    refuse_if (not (text_eq t.config_hash (config_hash c)))
        (token_config_hash t.config_hash (config_hash c))
    refuse_if (not (text_eq t.mode (mode_name c.mode))) (token_mode t.mode (mode_name c.mode))

unfoldable pub mark : CompletedStage → ResumeToken → ResumeToken
mark stage t = record t { completed = add_stage stage t.completed }

unfoldable pub has : ResumeToken → CompletedStage → Bool
has t stage = has_stage stage t.completed

unfoldable pub default_resume_path : Text → Text
default_resume_path path = path ++ lit ".resume.json"
