-- ===== src/Reports/Store.antt =====
-- internal/reports/store.go: the persistence port of the reports domain.
pub mod Evolution
use base_template_server_go.Base.{String, Time, List}
use base_template_server_go.Op.{Op}
use base_template_server_go.Reports.Domain.{Uuid, Report}

pub record Store (S : Type 0) : Type 0 where
  pub create_report : Report → Op S Report
  pub get_report_by_id : Uuid → Op S Report
  pub list_reports_by_owner : String → Op S (List Report)
  -- id, now, stale_before
  pub claim_execution : Uuid → Time → Time → Op S Report
  pub mark_pending_retry : Uuid → Time → Op S Report
  -- id, result, at
  pub mark_completed : Uuid → String → Time → Op S Report
  -- id, code, reason, at
  pub mark_failed : Uuid → String → String → Time → Op S Report
  pub list_pending_older_than : Time → Op S (List Report)
