-- ===== src/Examples/Counting.antt =====
-- The publication and the row counts at example inputs.
use pg_migrator.Maintenance.{
  run_source_vacuum, run_target_analyze, maintain, each_schema, vacuum_schema, run_per_table,
  maintain_tables, build_vacuum_analyze_table_sql, build_analyze_table_sql, build_analyze_sql,
  build_vacuum_analyze_sql, list_vacuumable_sql, list_analyzable_sql,
}
use pg_migrator.Maintenance.Effects.{DoesMaintenance, maintenance_lem}
use pg_migrator.Examples.Data.{maintenance}
use pg_migrator.Base.{
  ◌⊎◌, ◌↔◌, false, int_eq, Text, lit, mem_text, rsplit_once, ℤ, pos, negsuc, some, List, [], ◌∷◌,
  true, ◌≡◌, ◌≢◌, refl, inl, In, arith, filter,
}
use pg_migrator.Error.{Result, ok}
use pg_migrator.Config.{offline}
use pg_migrator.Publication.{keeps_table, filter_tables_by_exclusions, effective_scope}
use pg_migrator.Publication.Schema.{InSchema}
use pg_migrator.Publication.Coverage.{Publishes, Listed, exclusions_publish, includes_publish}
use pg_migrator.Verify.Report.{VerifyReport, mismatches}
use pg_migrator.Verify.Counts.{
  verify_row_counts, selected, qualified, select_tables_to_verify, count_in_workers, join_workers,
  worker, count_all, count_table, count_split, compared, target_count, chunks, chunk_size,
}
use pg_migrator.Verify.Parallel.{verify_row_counts-sequential}
use pg_migrator.Verify.Agreement.{Agrees, verified_tables_agree}
use pg_migrator.Examples.Data.{config_of, counters}

abbrev source_tables : List Text
source_tables = lit "a.t" ∷ lit "a.u" ∷ lit "b.v" ∷ []

abbrev no_u : List Text
no_u = lit "a.u" ∷ []

excludes : no_u ≢ []
excludes h = ground arith

exclusions_publish_example :
    let fetched = filter_tables_by_exclusions source_tables no_u [] in
    Publishes (effective_scope [] [] no_u [] fetched) (lit "a.t")
    ↔ (¬ (Listed no_u [] (lit "a.t")) ⊎ ((u : Text) → In u source_tables → Listed no_u [] u))
exclusions_publish_example =
    exclusions_publish no_u [] source_tables (lit "a.t") (inl excludes) (inl refl)

includes_publish_example : Publishes (effective_scope source_tables [] no_u [] []) (lit "a.t") ↔ (
    (In (lit "a.t") source_tables × ¬ (Listed no_u [] (lit "a.t")))
    ⊎ ((s : Text) × In s [] × ¬ (In s []) × InSchema s (lit "a.t"))
    ⊎ (((u : Text) → In u source_tables → Listed no_u [] u) × ((s : Text) → In s [] → In s [])))
includes_publish_example =
    includes_publish no_u [] source_tables [] [] (lit "a.t") (inl excludes) (inl listed)
  where
    listed : source_tables ≢ []
    listed h = ground arith

abbrev listed_tables : List (Text × Text)
listed_tables = (lit "a", lit "t") ∷ (lit "b", lit "v") ∷ []

abbrev matching : VerifyReport
matching = record {
  rows =
      record { schema = lit "a"; table = lit "t"; source = pos 2; target = pos 2 }
      ∷ record { schema = lit "b"; table = lit "v"; source = pos 2; target = pos 2 }
      ∷ [];
}

counted_both : verify_row_counts counters (config_of offline) ≡ ok matching
unfolding verify_row_counts selected qualified select_tables_to_verify filter_tables_by_exclusions
    keeps_table filter mem_text count_in_workers join_workers worker count_all count_table
    count_split compared target_count chunks chunk_size rsplit_once lit
counted_both = refl

verify_row_counts-sequential_example :
    count_all counters (selected counters (config_of offline) listed_tables) ≡ ok matching.rows
verify_row_counts-sequential_example =
    verify_row_counts-sequential counters (config_of offline) listed_tables matching refl
      counted_both

natural : (q : Text) (target : Result ℤ) → counters.count q ≢ some (ok (negsuc 0), target)
natural q target h = ground arith

none_differs : mismatches matching ≡ []
unfolding mismatches filter int_eq
none_differs = refl

chosen : In (lit "a.t") (selected counters (config_of offline) listed_tables)
unfolding selected qualified select_tables_to_verify filter_tables_by_exclusions keeps_table filter
    mem_text lit
chosen = inl refl

parted : rsplit_once b'.' (lit "a.t") ≡ some (lit "a", lit "t")
unfolding rsplit_once lit
parted = refl

verified_tables_agree_example : Agrees counters (lit "a") (lit "t")
verified_tables_agree_example =
    verified_tables_agree counters natural (config_of offline) listed_tables matching (lit "a.t")
      (lit "a") (lit "t") refl counted_both none_differs chosen parted

maintenance_lem_example :
    DoesMaintenance maintenance
      (lit "c")
      (lit "a" ∷ [])
      true
      (build_vacuum_analyze_sql true)
      (build_vacuum_analyze_table_sql maintenance)
      list_vacuumable_sql
      (run_source_vacuum maintenance (lit "c") (lit "a" ∷ []) true)
    × DoesMaintenance maintenance
        (lit "c")
        (lit "a" ∷ [])
        true
        (build_analyze_sql true)
        (build_analyze_table_sql maintenance)
        list_analyzable_sql
        (run_target_analyze maintenance (lit "c") (lit "a" ∷ []) true)
maintenance_lem_example = maintenance_lem maintenance (lit "c") (lit "a" ∷ []) true

vacuumed_a :
    (run_source_vacuum maintenance (lit "c") (lit "a" ∷ []) false).statements
    ≡ lit "VACUUM ANALYZE a.t;" ∷ lit "VACUUM ANALYZE a.v;" ∷ []
unfolding run_source_vacuum maintain each_schema vacuum_schema run_per_table maintain_tables
    build_vacuum_analyze_table_sql lit
vacuumed_a = refl
