-- ===== src/Reports/Postgres/Store.antt =====
-- internal/reports/postgres/store.go: the store that maps the rows of the statements to reports.
use base_template_server_go.Base.{List, String, Time, map}
use base_template_server_go.Op.{Op, pure, ◌>>=◌}
use base_template_server_go.Reports.Domain.{Report, Uuid}
use base_template_server_go.Reports.Store.{Store}
use base_template_server_go.Reports.Postgres.{ReportsReport, inserted, map_report}
pub use base_template_server_go.Reports.Postgres.Queries.{
  Statement, Table, Database, has_id, is_running,
}
use base_template_server_go.Reports.Postgres.Queries as Queries

abbrev pub mapped : Op Table ReportsReport → Op Table Report
mapped m = do row ← m; pure (map_report row)

abbrev pub mapped_all : Op Table (List ReportsReport) → Op Table (List Report)
mapped_all m = do rows ← m; pure (map map_report rows)

module _ (db : Database) where
  unfoldable pub create_report : Report → Op Table Report
  create_report r = mapped (Queries.insert_report db (inserted r))

  unfoldable pub get_report_by_id : Uuid → Op Table Report
  get_report_by_id id = mapped (Queries.select_report_by_id db id)

  unfoldable pub list_reports_by_owner : String → Op Table (List Report)
  list_reports_by_owner owner = mapped_all (Queries.select_reports_by_owner db owner)

  unfoldable pub claim_execution : Uuid → Time → Time → Op Table Report
  claim_execution id now stale_before =
      mapped (Queries.claim_report_execution db now id stale_before)

  unfoldable pub mark_pending_retry : Uuid → Time → Op Table Report
  mark_pending_retry id at = mapped (Queries.mark_report_pending_retry db at id)

  unfoldable pub mark_completed : Uuid → String → Time → Op Table Report
  mark_completed id text at = mapped (Queries.mark_report_completed db text at id)

  unfoldable pub mark_failed : Uuid → String → String → Time → Op Table Report
  mark_failed id code reason at = mapped (Queries.mark_report_failed db reason code at id)

  unfoldable pub list_pending_older_than : Time → Op Table (List Report)
  list_pending_older_than updated_before =
      mapped_all (Queries.select_pending_reports_older_than db updated_before)

  unfoldable pub postgres_store : Store Table
  unfolding create_report get_report_by_id list_reports_by_owner claim_execution mark_pending_retry
      mark_completed mark_failed list_pending_older_than
  postgres_store = record {
    create_report = create_report;
    get_report_by_id = get_report_by_id;
    list_reports_by_owner = list_reports_by_owner;
    claim_execution = claim_execution;
    mark_pending_retry = mark_pending_retry;
    mark_completed = mark_completed;
    mark_failed = mark_failed;
    list_pending_older_than = list_pending_older_than;
  }
