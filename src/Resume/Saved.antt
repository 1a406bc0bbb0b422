-- ===== src/Resume/Saved.antt =====
-- What a resumed run finds on disk (resume.rs).
use pg_migrator.Base.{
  [], refl, inr, ap, In, inl, true, false, ◌∷◌, Option, Text, none, some, List, ◌≡◌, ◌↔◌, ◌⊎◌,
  arith, text_eq_iff,
}
use pg_migrator.Error.{Result, ok}
use pg_migrator.Config.{MigrationConfig}
use pg_migrator.Resume.Hash.{HashItem}
use pg_migrator.Resume.Token.{
  mark, has, CompletedStage, new_token, ResumeToken, mode_name, config_hash, check_compatible,
}
use pg_migrator.Resume.File.{
  serialised, mkdir_fails, write_leaves_nothing, rename_fails, no_fault, write_leaves_part,
  ReadOutcome, not_found, read, load, Disk, SaveFault, save,
}

-- What a run that starts from this disk reads.
abbrev read_file : Option Text → ReadOutcome
read_file none = not_found
read_file (some bytes) = read bytes

abbrev pub read_back : Disk → ReadOutcome
read_back d = read_file d.final

-- a save of bytes, if there are any
abbrev SavedOrKept : Option Text → Disk → Disk × Result (Unit {0}) → Type 0
SavedOrKept encoded d (d', r) =
    ((d'.final ≡ d.final) ⊎ ((bytes : Text) × (encoded ≡ some bytes) × (d'.final ≡ some bytes)))
    × (r ≡ ok tt → (bytes : Text) × (encoded ≡ some bytes) × (d'.final ≡ some bytes))

serialised-SavedOrKept :
    (f : SaveFault) (encoded : Option Text) (d : Disk)
    → SavedOrKept encoded d (serialised f encoded d)
serialised-SavedOrKept f none d = (inl refl, λ h. absurd (cc h))
serialised-SavedOrKept mkdir_fails (some bytes) d = (inl refl, λ h. absurd (cc h))
serialised-SavedOrKept write_leaves_nothing (some bytes) d = (inl refl, λ h. absurd (cc h))
serialised-SavedOrKept (write_leaves_part part) (some bytes) d = (inl refl, λ h. absurd (cc h))
serialised-SavedOrKept rename_fails (some bytes) d = (inl refl, λ h. absurd (cc h))
serialised-SavedOrKept no_fault (some bytes) d = (inr (bytes, refl, refl), λ h. (bytes, refl, refl))

-- Whatever goes wrong in a save, and wherever the process dies in it, the token's file holds what
-- it held before or all the bytes of the new token; it holds the new token's bytes when the save
-- reports success.
pub save_atomic :
    (to_vec : ResumeToken → Option Text) (f : SaveFault) (t : ResumeToken) (d : Disk)
    → let (d', r) = save to_vec f t d in
      let written = (bytes : Text) × (to_vec t ≡ some bytes) × (d'.final ≡ some bytes) in
      ((d'.final ≡ d.final) ⊎ written) × (r ≡ ok tt → written)
unfolding save
save_atomic to_vec mkdir_fails t d = (inl refl, λ h. absurd (cc h))
save_atomic to_vec write_leaves_nothing t d =
    serialised-SavedOrKept write_leaves_nothing (to_vec t) d
save_atomic to_vec (write_leaves_part part) t d =
    serialised-SavedOrKept (write_leaves_part part) (to_vec t) d
save_atomic to_vec rename_fails t d = serialised-SavedOrKept rename_fails (to_vec t) d
save_atomic to_vec no_fault t d = serialised-SavedOrKept no_fault (to_vec t) d

-- a token on which stages were marked, the last one first
unfoldable pub marked : List CompletedStage → ResumeToken → ResumeToken
marked [] t = t
marked (stage ∷ stages) t = mark stage (marked stages t)

marked-keeps :
    (stages : List CompletedStage) (t : ResumeToken)
    → let m = marked stages t in
      (m.schema_version ≡ t.schema_version) × (m.config_hash ≡ t.config_hash) × (m.mode ≡ t.mode)
unfolding marked mark
marked-keeps [] t = (refl, refl, refl)
marked-keeps (stage ∷ stages) t = marked-keeps stages t

has-mark :
    (asked stage : CompletedStage) (t : ResumeToken)
    → (has (mark stage t) asked ≡ true) ↔ ((asked ≡ stage) ⊎ (has t asked ≡ true))
unfolding has mark
has-mark asked stage t = ground arith

has-marked :
    (asked : CompletedStage) (stages : List CompletedStage) (t : ResumeToken)
    → ((s : CompletedStage) → has t s ≡ false)
    → (has (marked stages t) asked ≡ true) ↔ In asked stages
unfolding marked
has-marked asked [] t fresh = ground (arith, fresh asked)
has-marked asked (stage ∷ stages) t fresh =
    ground (arith, has-mark asked stage (marked stages t), has-marked asked stages t fresh)

-- A token is accepted exactly when its hash and its mode are those of the configuration.
pub check_compatible_lem :
    (hasher : List HashItem → Text) (t : ResumeToken) (c : MigrationConfig)
    → (check_compatible hasher t c ≡ ok tt)
      ↔ ((t.config_hash ≡ config_hash hasher c) × (t.mode ≡ mode_name c.mode))
unfolding check_compatible
check_compatible_lem hasher t c =
    ground (
      arith,
      text_eq_iff t.config_hash (config_hash hasher c),
      text_eq_iff t.mode (mode_name c.mode),
    )

load_written :
    (to_vec : ResumeToken → Option Text) (from_slice : Text → Option ResumeToken)
    (hasher : List HashItem → Text) (c : MigrationConfig) (path : Text)
    (stages : List CompletedStage)
    → let t = marked stages (new_token hasher c path) in
      ((bytes : Text) → to_vec t ≡ some bytes → from_slice bytes ≡ some t)
      → (final : Option Text) (bytes : Text) → to_vec t ≡ some bytes
      → final ≡ some bytes
      → load from_slice (read_file final) ≡ ok (some t)
unfolding load new_token
load_written to_vec from_slice hasher c path stages decodes final bytes e written =
    let t = marked stages (new_token hasher c path) in
    let version = (marked-keeps stages (new_token hasher c path)).0 in
    rw (written, decodes bytes e) (ground (arith, version))

accepted :
    (hasher : List HashItem → Text) (c : MigrationConfig) (path : Text)
    (stages : List CompletedStage)
    → check_compatible hasher (marked stages (new_token hasher c path)) c ≡ ok tt
unfolding new_token
accepted hasher c path stages =
    let kept = marked-keeps stages (new_token hasher c path) in
    (check_compatible_lem hasher (marked stages (new_token hasher c path)) c).1 (kept.1, kept.2)

fresh :
    (hasher : List HashItem → Text) (c : MigrationConfig) (path : Text) (stage : CompletedStage)
    → has (new_token hasher c path) stage ≡ false
unfolding new_token has
fresh hasher c path stage = ground arith

-- A fresh token on which any stages were marked, and which decoding gives back from the bytes that
-- it is encoded to: saved with success, it is loaded as it was, has exactly those stages, and is accepted by a
-- run with the configuration it was made for; after a save that failed, a load gives what it gave
-- before, or that token.
pub save-load :
    (to_vec : ResumeToken → Option Text) (from_slice : Text → Option ResumeToken)
    (hasher : List HashItem → Text) (c : MigrationConfig) (path : Text)
    (stages : List CompletedStage) (f : SaveFault) (d : Disk)
    → let t = marked stages (new_token hasher c path) in
      ((bytes : Text) → to_vec t ≡ some bytes → from_slice bytes ≡ some t)
      → let (d', r) = save to_vec f t d in
        let loaded = load from_slice (read_back d') in
        (r ≡ ok tt → loaded ≡ ok (some t))
        × ((loaded ≡ load from_slice (read_back d)) ⊎ (loaded ≡ ok (some t)))
        × (check_compatible hasher t c ≡ ok tt)
        × ((asked : CompletedStage) → (has t asked ≡ true) ↔ In asked stages)
save-load to_vec from_slice hasher c path stages f d decodes =
    let t = marked stages (new_token hasher c path) in
    let (kept, done) = save_atomic to_vec f t d in
    let back = load_written to_vec from_slice hasher c path stages decodes in
    (
      λ h. let (bytes, e, w) = done h in back _ bytes e w,
      elim kept [
        | inl same ↦ inl (ap (λ x. load from_slice (read_file x)) same)
        | inr (bytes, e, w) ↦ inr (back _ bytes e w)
      ],
      accepted hasher c path stages,
      λ asked. has-marked asked stages (new_token hasher c path) (fresh hasher c path),
    )
