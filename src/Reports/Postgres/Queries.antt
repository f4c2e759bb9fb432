-- ===== src/Reports/Postgres/Queries.antt =====
-- internal/reports/postgres/reports.sql.go: the statements on the table reports.reports, as functions
-- on the list of its rows. report_id is the primary key. Which call of a statement fails is an
-- argument.
use base_template_server_go.Base.{
  Bool, List, Option, String, Time, ltb, nat_eq, select, string_eq, ◌&&◌, ◌==◌,
}
use base_template_server_go.Base.Order.{ascending, descending, order_by}
use base_template_server_go.Sql.{insert, returning, run, scan_row, select_one}
use base_template_server_go.Errors.{GoError}
use base_template_server_go.Op.{Op, ok}
use base_template_server_go.Reports.Domain.{Uuid}
use base_template_server_go.Reports.Postgres.{
  ReportsReport, claim_set, claim_where, completed_set, failed_set, pending_retry_set,
}

pub data Statement : Type 0 where
  claiming creating getting listing_pending listing_owner completing failing retrying : Statement

abbrev pub Table : Type 0
Table = List ReportsReport

-- The failures of the database, and its message on a second row with one primary key.
pub record Database : Type 0 where
  pub fails : Statement → Table → Option GoError
  pub duplicate_key : GoError

abbrev pub has_id : Uuid → ReportsReport → Bool
has_id id r = r.report_id == id

abbrev pub is_running : ReportsReport → Bool
is_running r = r.status == "processing"

module _ (db : Database) where
  abbrev pub insert_report : ReportsReport → Op Table ReportsReport
  insert_report row t =
      run (db.fails creating t)
        (λ u. insert db.duplicate_key row (select_one (has_id row.report_id) u) u) t

  abbrev pub select_report_by_id : Uuid → Op Table ReportsReport
  select_report_by_id id t =
      run (db.fails getting t) (λ u. (scan_row (select_one (has_id id) u), u)) t

  abbrev pub select_reports_by_owner : String → Op Table (List ReportsReport)
  select_reports_by_owner owner t =
      run (db.fails listing_owner t)
        (λ u. (
          ok (order_by (descending (λ r. r.created_at)) (select (λ r. r.owner_user_id == owner) u)),
          u,
        ))
        t

  abbrev pub select_pending_reports_older_than : Time → Op Table (List ReportsReport)
  select_pending_reports_older_than updated_before t =
      run (db.fails listing_pending t)
        (λ u. (
          ok (
              order_by (ascending (λ r. r.updated_at))
                (select (λ r. r.status == "pending" && ltb r.updated_at updated_before) u)),
          u,
        ))
        t

  -- UPDATE … WHERE report_id = … AND test RETURNING …
  abbrev pub update_report :
      Statement
      → Uuid
      → (ReportsReport → Bool)
      → (ReportsReport → ReportsReport)
      → Op Table ReportsReport
  update_report q id test change t =
      run (db.fails q t) (λ u. returning (has_id id) test change (select_one (has_id id) u) u) t

  abbrev pub claim_report_execution : Time → Uuid → Time → Op Table ReportsReport
  claim_report_execution now_at id stale_before =
      update_report claiming id (λ r. claim_where r stale_before) (λ r. claim_set r now_at)

  abbrev pub mark_report_pending_retry : Time → Uuid → Op Table ReportsReport
  mark_report_pending_retry now_at id =
      update_report retrying id is_running (λ r. pending_retry_set r now_at)

  abbrev pub mark_report_completed : String → Time → Uuid → Op Table ReportsReport
  mark_report_completed result now_at id =
      update_report completing id is_running (λ r. completed_set r result now_at)

  abbrev pub mark_report_failed : String → String → Time → Uuid → Op Table ReportsReport
  mark_report_failed reason code now_at id =
      update_report failing id is_running (λ r. failed_set r code reason now_at)
