-- ===== src/Apply/Stale.antt =====
-- What an earlier run may leave behind, and what a cutover leaves over: the functions of
-- pg_dbmigrator/src/native_apply.rs that clean the subscription, the slot and the publication up.
use pg_migrator.Base.{Text, List, [], ◌∷◌, ◌++◌, ◌≡◌, ◌↔◌, arith}
use pg_migrator.Error.{Result, ok, err, ◌>>=◌, ◌>>◌}
use pg_migrator.Config.{OnlineOptions}

-- The statements, which name their object as quoted: `clean_subscription` disables, detaches and
-- drops one that exists, `disable_existing` disables one that exists, `clean_slot` drops a slot that
-- exists, `drop_idle_slot` one that is not active either, and `drop_existing_publication` is
-- `DROP PUBLICATION IF EXISTS`.
pub data AdminCommand : Type 0 where
  clean_subscription disable_existing : Text → Text → AdminCommand
  clean_slot drop_idle_slot drop_existing_publication : Text → AdminCommand

-- What the cleaning asks: connecting to a server, quoting, executing a statement on a server.
pub record Admin : Type 0 where
  pub connect : Text → Result (Unit {0})
  pub quote_ident : Text → Result Text
  pub quote_literal : Text → Result Text
  pub execute : Text → AdminCommand → Result (Unit {0})

-- the statements that were executed, with the server of each, and what is returned
pub record Cleaned : Type 0 where
  pub statements : List (Text × AdminCommand)
  pub result : Result (Unit {0})

-- a statement whose failure is only logged, once it can be written
abbrev pub tolerant : Text → Result AdminCommand → Cleaned
tolerant conn (ok command) = record { statements = (conn, command) ∷ []; result = ok tt }
tolerant conn (err e) = record { statements = []; result = err e }

-- a statement whose failure is passed on
abbrev pub strictly : Admin → Text → Result AdminCommand → Cleaned
strictly a conn (ok command) = record {
  statements = (conn, command) ∷ [];
  result = a.execute conn command;
}
strictly a conn (err e) = record { statements = []; result = err e }

-- `?` between two parts
abbrev pub then_clean : Cleaned → Cleaned → Cleaned
then_clean first rest = elim first.result [
  | ok _ ↦ record { statements = first.statements ++ rest.statements; result = rest.result }
  | err e ↦ record { statements = first.statements; result = err e }
]

module _ (a : Admin) where
  unfoldable pub cleanup_target_subscription : Text → OnlineOptions → Cleaned
  cleanup_target_subscription target_conn online = tolerant target_conn (do
    a.connect target_conn
    sub ← a.quote_ident online.subscription_name
    sub_lit ← a.quote_literal online.subscription_name
    ok (clean_subscription sub sub_lit))

  unfoldable pub force_clean_stale_state : Text → Text → OnlineOptions → Cleaned
  force_clean_stale_state source_conn target_conn online =
      then_clean (cleanup_target_subscription target_conn online) (
        tolerant source_conn (do
          a.connect source_conn
          slot_lit ← a.quote_literal online.slot_name
          ok (clean_slot slot_lit)))

  -- it returns nothing: what cannot be written is not done
  unfoldable pub disable_target_subscription : Text → OnlineOptions → List (Text × AdminCommand)
  disable_target_subscription target_conn online =
      (tolerant target_conn (do
        a.connect target_conn
        sub ← a.quote_ident online.subscription_name
        sub_lit ← a.quote_literal online.subscription_name
        ok (disable_existing sub sub_lit))).statements

  unfoldable pub drop_source_publication : Text → Text → Cleaned
  drop_source_publication source_conn publication = strictly a source_conn (do
    a.connect source_conn
    pub_ident ← a.quote_ident publication
    ok (drop_existing_publication pub_ident))

  unfoldable pub drop_source_slot : Text → Text → Cleaned
  drop_source_slot source_conn slot_name =
      strictly a source_conn (do
        a.connect source_conn
        slot_lit ← a.quote_literal slot_name
        ok (drop_idle_slot slot_lit))

  -- Forcing a clean start succeeds exactly where both servers can be reached and the names quoted,
  -- whatever becomes of the statements.
  pub force_clean_iff :
      (source_conn target_conn : Text) (online : OnlineOptions)
      → ((force_clean_stale_state source_conn target_conn online).result ≡ ok tt) ↔ (
          (a.connect target_conn ≡ ok tt)
          × ((sub : Text) × (a.quote_ident online.subscription_name ≡ ok sub))
          × ((sub_lit : Text) × (a.quote_literal online.subscription_name ≡ ok sub_lit))
          × (a.connect source_conn ≡ ok tt)
          × ((slot_lit : Text) × (a.quote_literal online.slot_name ≡ ok slot_lit)))
  unfolding force_clean_stale_state cleanup_target_subscription
  force_clean_iff source_conn target_conn online = ground arith
