-- ===== src/Resume/File.antt =====
-- `ResumeToken::load` and `ResumeToken::save` (pg_dbmigrator/src/resume.rs) over a small disk: the
-- token's file and the temporary file beside it, by their bytes. `from_slice` and `to_vec` stand for
-- serde_json's `from_slice` and `to_vec_pretty`, `none` for their errors.
use pg_migrator.Base.{Text, Option, none, some, false, not, ◌==◌}
use pg_migrator.Error.{
  Result, ok, err, config, io, ◌>>◌, refuse_if, token_not_json, token_not_serialised,
  token_schema_version,
}
use pg_migrator.Resume.Token.{ResumeToken, resume_schema_version}

-- What a read returns.
pub data ReadOutcome : Type 0 where
  not_found read_failed : ReadOutcome
  read : Text → ReadOutcome

-- the test of a token that was decoded
abbrev decoded : Option ResumeToken → Result (Option ResumeToken)
decoded none = err (config token_not_json)
decoded (some t) =
    refuse_if (not (t.schema_version == resume_schema_version))
      (token_schema_version t.schema_version)
    >> ok (some t)

unfoldable pub load : (Text → Option ResumeToken) → ReadOutcome → Result (Option ResumeToken)
load from_slice not_found = ok none
load from_slice read_failed = err (io false)
load from_slice (read bytes) = decoded (from_slice bytes)

pub record Disk : Type 0 where
  pub final : Option Text
  pub tmp : Option Text

-- How far a save gets: a step fails, or the process dies at it, or nothing goes wrong. A write
-- that does not finish leaves part of the bytes, or nothing.
pub data SaveFault : Type 0 where
  mkdir_fails write_leaves_nothing rename_fails no_fault : SaveFault
  write_leaves_part : Text → SaveFault

-- the directory is there and the token serialised
abbrev write_and_rename : SaveFault → Text → Disk → Disk × Result (Unit {0})
write_and_rename mkdir_fails bytes d = (d, err (io false))
write_and_rename write_leaves_nothing bytes d = (d, err (io false))
write_and_rename (write_leaves_part part) bytes d = (record d { tmp = some part }, err (io false))
write_and_rename rename_fails bytes d = (record d { tmp = some bytes }, err (io false))
write_and_rename no_fault bytes d = (record { final = some bytes; tmp = none }, ok tt)

abbrev pub serialised : SaveFault → Option Text → Disk → Disk × Result (Unit {0})
serialised f none d = (d, err (config token_not_serialised))
serialised f (some bytes) d = write_and_rename f bytes d

unfoldable pub save :
    (ResumeToken → Option Text) → SaveFault → ResumeToken → Disk → Disk × Result (Unit {0})
save to_vec mkdir_fails t d = (d, err (io false))
save to_vec f t d = serialised f (to_vec t) d
