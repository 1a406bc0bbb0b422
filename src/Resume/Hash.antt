-- ===== src/Resume/Hash.antt =====
-- `config_hash` (pg_dbmigrator/src/resume.rs): what is fed to the hasher. The hasher itself and the
-- formatting of its value are a function of that input, a parameter of the callers.
use pg_migrator.Base.{ℕ, Text, ltb, ◌==◌, List, [], ◌∷◌, Bool, true, false, if◌then◌else◌}
use pg_migrator.Config.{
  MigrationMode, offline, online, verify, is_online, MigrationConfig, OnlineOptions,
}

-- `a <= b` on strings: lexicographic on their scalar values
unfoldable pub text_leb : Text → Text → Bool
text_leb [] t = true
text_leb (c ∷ s) [] = false
text_leb (c ∷ s) (d ∷ t) = if ltb c d then true else if c == d then text_leb s t else false

unfoldable pub insert_sorted : Text → List Text → List Text
insert_sorted s [] = s ∷ []
insert_sorted s (t ∷ ts) =
    let rest = insert_sorted s ts in if text_leb s t then s ∷ t ∷ ts else t ∷ rest

-- `list.sort()`: the sorted list is unique, so an insertion sort stands for the library's
unfoldable pub sort : List Text → List Text
sort [] = []
sort (s ∷ ss) = insert_sorted s (sort ss)

-- One value given to the hasher.
pub data HashItem : Type 0 where
  byte : ℕ → HashItem
  port : ℕ → HashItem
  text : Text → HashItem
  texts : List Text → HashItem

unfoldable pub mode_byte : MigrationMode → ℕ
mode_byte offline = 0
mode_byte online = 1
mode_byte verify = 2

online_identity : OnlineOptions → List HashItem
online_identity o = text o.slot_name ∷ text o.publication ∷ text o.subscription_name ∷ []

-- the values in the order in which `config_hash` feeds them
unfoldable pub hash_input : MigrationConfig → List HashItem
unfolding online_identity
hash_input c =
    byte (mode_byte c.mode)
    ∷ text c.source.host
    ∷ port c.source.port
    ∷ text c.source.database
    ∷ text c.target.host
    ∷ port c.target.port
    ∷ text c.target.database
    ∷ texts (sort c.schemas)
    ∷ texts (sort c.tables)
    ∷ (if is_online c.mode then online_identity c.online else [])
