-- ===== src/Reports/Postgres/Tests.antt =====
-- A run over the Postgres store of reports, and the theorem at it.
use base_template_server_go.Base.{[], false, none, refl, some, ◌∷◌, ◌≡◌}
use base_template_server_go.Sql.{select_one, update_where}
use base_template_server_go.Errors.{GoError, foreign, is, no_rows, sentinel}
use base_template_server_go.Op.{err, ok}
use base_template_server_go.Reports.Spec.{StoreLaws}
use base_template_server_go.Reports.Fake.{claimed}
use base_template_server_go.Reports.Postgres.{ReportsReport, claim_set, claim_where, map_report}
use base_template_server_go.Reports.Postgres.Store.{claim_execution, mark_completed, postgres_store}
use base_template_server_go.Reports.Postgres.Queries.{Database, Statement, Table, creating}
use base_template_server_go.Reports.Postgres.Laws.{Honest, table_rows}
use base_template_server_go.Reports.Postgres.Port.{postgres_store-StoreLaws}

-- A database that loses every INSERT.
abbrev no_inserts : Database
no_inserts = record {
  fails = λ q t. elim q [ creating ↦ some (foreign "connection lost") | _ ↦ none ];
  duplicate_key = foreign "duplicate key";
}

abbrev row : ReportsReport
row = record {
  report_id = 7;
  owner_user_id = "ann";
  report_type = "todo-summary";
  status = "pending";
  created_at = 100;
  updated_at = 100;
  started_at = none;
  completed_at = none;
  failure_reason = none;
  result = none;
  processing_started_at = none;
  failure_code = none;
}

never_missing :
    (q : Statement) (t : Table) (e : GoError) → no_inserts.fails q t ≡ some e → is e no_rows ≡ false
never_missing creating t e h = let same : foreign "connection lost" ≡ e = cc h in rw (← same) refl
never_missing _ t e h = absurd (cc h)

no_inserts-Honest : Honest no_inserts
no_inserts-Honest = (refl, never_missing)

postgres_store-StoreLaws_example : StoreLaws (postgres_store no_inserts) table_rows
postgres_store-StoreLaws_example = postgres_store-StoreLaws no_inserts no_inserts-Honest

claimed_once :
    ((claim_execution no_inserts 7 200 50 (row ∷ [])).0 ≡ ok (claimed (map_report row) 200))
    × ((claim_execution no_inserts 7 300 50 (claim_execution no_inserts 7 200 50 (row ∷ [])).1).0
        ≡ err (sentinel no_rows))
    × ((mark_completed no_inserts 7 "text" 300 (row ∷ [])).0 ≡ err (sentinel no_rows))
unfolding claim_execution mark_completed select_one update_where map_report claim_set claim_where
    claimed
claimed_once = (refl, refl, refl)
