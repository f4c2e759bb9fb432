-- ===== src/Reports/Domain.antt =====
-- internal/reports/domain.go: reports, their statuses, the job payload and the failure messages.
use base_template_server_go.Base.{
  ℕ, String, Time, Option, ◌==◌, ◌⧺◌, if◌then◌else◌, string_eq, decimal,
}
use base_template_server_go.Authn.{Context}
use base_template_server_go.Op.{Op}

abbrev pub Uuid : Type 0
Uuid = ℕ

abbrev pub status_pending : String
status_pending = "pending"

abbrev pub status_processing : String
status_processing = "processing"

abbrev pub status_completed : String
status_completed = "completed"

abbrev pub status_failed : String
status_failed = "failed"

abbrev pub type_todo_summary : String
type_todo_summary = "todo-summary"

abbrev pub job_generate : String
job_generate = "reports.generate"

abbrev pub failure_unsupported_type : String
failure_unsupported_type = "UNSUPPORTED_TYPE"

abbrev pub failure_retry_exhausted : String
failure_retry_exhausted = "RETRY_EXHAUSTED"

abbrev pub failure_internal : String
failure_internal = "INTERNAL"

pub record Report : Type 0 where
  pub report_id : Uuid
  pub owner_user_id : String
  pub type : String
  pub status : String
  pub created_at : Time
  pub updated_at : Time
  pub started_at : Option Time
  pub completed_at : Option Time
  pub processing_started_at : Option Time
  pub failure_reason : String
  pub failure_code : String
  pub result : String

pub record CreateRequest : Type 0 where
  pub type : String

pub record GenerateReportJob : Type 0 where
  pub report_id : Uuid

-- The counts are those of rows, so no negative number occurs.
pub record TodoSummary : Type 0 where
  pub total : ℕ
  pub completed : ℕ
  pub outstanding : ℕ

pub record TodoSummaryReader (S : Type 0) : Type 0 where
  pub summary : Context → Op S TodoSummary

-- The payload (`any`) is a GenerateReportJob wherever this package calls it.
pub record Enqueuer (S : Type 0) : Type 0 where
  pub enqueue : String → GenerateReportJob → Op S (Unit {0})

unfoldable pub safe_failure_message : String → String → String
safe_failure_message code detail =
    if code == failure_unsupported_type
    then "unsupported report type"
    else if code == failure_retry_exhausted
    then "report generation failed after retries"
    else if code == failure_internal
    then (if detail == "" then "report generation failed" else detail)
    else if detail == ""
    then "report failed (" ⧺ code ⧺ ")"
    else detail

-- The `Sprintf` of Generate.
unfoldable pub result_text : TodoSummary → String
unfolding decimal
result_text s =
    "Total todos: "
    ⧺ decimal s.total
    ⧺ "\nCompleted: "
    ⧺ decimal s.completed
    ⧺ "\nOutstanding: "
    ⧺ decimal s.outstanding
