-- ===== src/Resume/Order.antt =====
-- The order of the include lists does not matter to the hash (resume.rs).
use mathlib.Core.List.{Perm, Permᴰ}
use mathlib.Core.Logic.{∥∥₁_elim}
use pg_migrator.Base.{Text, List, [], ◌∷◌, true, false, ◌≡◌, refl, ap, ◌∙◌, arith}
use pg_migrator.Config.{MigrationConfig, is_online}
use pg_migrator.Resume.Hash.{text_leb, insert_sorted, sort, HashItem, hash_input}
use pg_migrator.Resume.Token.{config_hash}

text_leb_total : (s t : Text) → text_leb s t ≡ false → text_leb t s ≡ true
unfolding text_leb
text_leb_total [] t h = ground arith
text_leb_total (c ∷ s) [] h = refl
text_leb_total (c ∷ s) (d ∷ t) h = ground (arith, text_leb_total s t)

text_leb_antisymm : (s t : Text) → text_leb s t ≡ true → text_leb t s ≡ true → s ≡ t
unfolding text_leb
text_leb_antisymm [] [] h k = refl
text_leb_antisymm [] (d ∷ t) h k = ground arith
text_leb_antisymm (c ∷ s) [] h k = ground arith
text_leb_antisymm (c ∷ s) (d ∷ t) h k = ground (arith, text_leb_antisymm s t)

text_leb_trans : (s t u : Text) → text_leb s t ≡ true → text_leb t u ≡ true → text_leb s u ≡ true
unfolding text_leb
text_leb_trans [] t u h k = refl
text_leb_trans (c ∷ s) [] u h k = ground arith
text_leb_trans (c ∷ s) (d ∷ t) [] h k = ground arith
text_leb_trans (c ∷ s) (d ∷ t) (e ∷ u) h k = ground (arith, text_leb_trans s t u)

insert_sorted_comm :
    (s t : Text) (l : List Text)
    → insert_sorted s (insert_sorted t l) ≡ insert_sorted t (insert_sorted s l)
unfolding insert_sorted
insert_sorted_comm s t [] =
    ground (arith, text_leb_total s t, text_leb_total t s, text_leb_antisymm s t)
insert_sorted_comm s t (u ∷ l) = ground (
  arith,
  insert_sorted_comm s t l,
  text_leb_total s t,
  text_leb_total t s,
  text_leb_antisymm s t,
  text_leb_trans s t u,
  text_leb_trans t s u,
)

sort-Permᴰ : {l m : List Text} → Permᴰ l m → sort l ≡ sort m
unfolding sort
sort-Permᴰ Permᴰ.nil = refl
sort-Permᴰ (Permᴰ.cons {a = a} e p) = cc (e, sort-Permᴰ p)
sort-Permᴰ (Permᴰ.swap {a = a} {b = b} {l = l} e f) = cc (e, f, insert_sorted_comm a b (sort l))
sort-Permᴰ (Permᴰ.trans p q) = sort-Permᴰ p ∙ sort-Permᴰ q

texts_set : IsSet (List Text)
texts_set = hlevel

pub sort-perm : {l m : List Text} → Perm l m → sort l ≡ sort m
sort-perm p = ∥∥₁_elim p (texts_set _ _) sort-Permᴰ

-- Two configurations that define the same migration: all but the include lists agree, and those
-- hold the same names in some order. Passwords, users and every tuning option may differ.
pub record SameMigration (c d : MigrationConfig) : Type 0 where
  pub mode : c.mode ≡ d.mode
  pub source_host : c.source.host ≡ d.source.host
  pub source_port : c.source.port ≡ d.source.port
  pub source_database : c.source.database ≡ d.source.database
  pub target_host : c.target.host ≡ d.target.host
  pub target_port : c.target.port ≡ d.target.port
  pub target_database : c.target.database ≡ d.target.database
  pub schemas : Perm c.schemas d.schemas
  pub tables : Perm c.tables d.tables
  pub slot_name : is_online c.mode ≡ true → c.online.slot_name ≡ d.online.slot_name
  pub publication : is_online c.mode ≡ true → c.online.publication ≡ d.online.publication
  pub subscription_name :
      is_online c.mode ≡ true → c.online.subscription_name ≡ d.online.subscription_name

-- Configurations that define the same migration have the same hash, whatever the hasher: the order
-- of the include lists, credentials and, outside online mode, the online names do not count.
pub config_hash-SameMigration :
    (hasher : List HashItem → Text) (c d : MigrationConfig)
    → SameMigration c d
    → config_hash hasher c ≡ config_hash hasher d
unfolding config_hash hash_input
config_hash-SameMigration hasher c d h =
    ap hasher (ground (arith, sort-perm h.schemas, sort-perm h.tables))
