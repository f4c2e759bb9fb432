-- ===== src/Reports/Postgres.antt =====
-- internal/reports/postgres: rows of the table reports.reports, and what the statements of
-- reports.sql.go ask of one row and make of it. A sql.NullTime or sql.NullString is an option.
pub mod Queries
pub mod Store
pub mod Laws
pub mod Port
mod Tests
use base_template_server_go.Base.{
  Bool, Option, String, Time, arith, eq_iff, if◌then◌else◌, ltb, nat_eq, none, refl, some,
  string_eq, true, ◌&&◌, ◌==◌, ◌||◌, ◌≡◌,
}
use base_template_server_go.Reports.Domain.{Report, Uuid}
use base_template_server_go.Reports.Fake.{
  claimed, failed, finished, is_eligible, is_stale, or_now, returned,
}

pub record ReportsReport : Type 0 where
  pub report_id : Uuid
  pub owner_user_id : String
  pub report_type : String
  pub status : String
  pub created_at : Time
  pub updated_at : Time
  pub started_at : Option Time
  pub completed_at : Option Time
  pub failure_reason : Option String
  pub result : Option String
  pub processing_started_at : Option Time
  pub failure_code : Option String

-- nullTime, on a pointer that may be nil.
abbrev pub null_time : Option Time → Option Time
null_time none = none
null_time (some t) = some t

abbrev pub null_string : String → Option String
null_string s = if s == "" then none else some s

abbrev string_of : Option String → String
string_of none = ""
string_of (some s) = s

abbrev time_of : Option Time → Option Time
time_of none = none
time_of (some t) = some t

unfoldable pub map_report : ReportsReport → Report
map_report r = record {
  report_id = r.report_id;
  owner_user_id = r.owner_user_id;
  type = r.report_type;
  status = r.status;
  created_at = r.created_at;
  updated_at = r.updated_at;
  started_at = time_of r.started_at;
  completed_at = time_of r.completed_at;
  processing_started_at = time_of r.processing_started_at;
  failure_reason = string_of r.failure_reason;
  failure_code = string_of r.failure_code;
  result = string_of r.result;
}

-- The row that CreateReport inserts and gets back.
unfoldable pub inserted : Report → ReportsReport
inserted r = record {
  report_id = r.report_id;
  owner_user_id = r.owner_user_id;
  report_type = r.type;
  status = r.status;
  created_at = r.created_at;
  updated_at = r.updated_at;
  started_at = null_time r.started_at;
  completed_at = null_time r.completed_at;
  failure_reason = null_string r.failure_reason;
  result = null_string r.result;
  processing_started_at = null_time r.processing_started_at;
  failure_code = null_string r.failure_code;
}

abbrev coalesce : Option Time → Time → Option Time
coalesce none t = some t
coalesce (some s) t = some s

abbrev is_null_or_before : Option Time → Time → Bool
is_null_or_before none t = true
is_null_or_before (some s) t = ltb s t

unfoldable pub claim_where : ReportsReport → Time → Bool
claim_where r stale_before =
    r.status == "pending"
    || (r.status == "processing" && is_null_or_before r.processing_started_at stale_before)

unfoldable pub claim_set : ReportsReport → Time → ReportsReport
claim_set r now = record r {
  status = "processing";
  processing_started_at = some now;
  updated_at = now;
  started_at = coalesce r.started_at now;
  failure_reason = none;
  failure_code = none;
}

unfoldable pub pending_retry_set : ReportsReport → Time → ReportsReport
pending_retry_set r at = record r {
  status = "pending";
  processing_started_at = none;
  updated_at = at;
  failure_reason = none;
  failure_code = none;
}

unfoldable pub completed_set : ReportsReport → String → Time → ReportsReport
completed_set r result at = record r {
  status = "completed";
  result = some result;
  completed_at = some at;
  updated_at = at;
  processing_started_at = none;
  failure_reason = none;
  failure_code = none;
}

-- With the parameters that MarkFailed makes of the code and the reason.
unfoldable pub failed_set : ReportsReport → String → String → Time → ReportsReport
failed_set r code reason at = record r {
  status = "failed";
  failure_reason = null_string reason;
  failure_code = null_string code;
  completed_at = some at;
  updated_at = at;
  processing_started_at = none;
}

time_of-null_time : (o : Option Time) → time_of (null_time o) ≡ o
time_of-null_time none = refl
time_of-null_time (some t) = refl

string_of-null_string : (s : String) → string_of (null_string s) ≡ s
string_of-null_string s = ground (arith, eq_iff s "")

-- A report that is written to the table is read back unchanged.
pub map_report-inserted : (r : Report) → map_report (inserted r) ≡ r
unfolding map_report inserted
map_report-inserted r =
    rw
      (
        time_of-null_time r.started_at,
        time_of-null_time r.completed_at,
        time_of-null_time r.processing_started_at,
        string_of-null_string r.failure_reason,
        string_of-null_string r.failure_code,
        string_of-null_string r.result,
      )
      refl

or_now-coalesce : (o : Option Time) (t : Time) → time_of (coalesce o t) ≡ or_now (time_of o) t
or_now-coalesce none t = refl
or_now-coalesce (some s) t = refl

is_stale-null : (o : Option Time) (t : Time) → is_null_or_before o t ≡ is_stale (time_of o) t
is_stale-null none t = refl
is_stale-null (some s) t = refl

-- Read through mapReport, the statements ask of a row what the in-memory store asks of it, and make
-- of it what that store makes of it: for claims, returns, completions and failures.
pub statements_agree :
    (r : ReportsReport) (now t : Time) (text code reason : String)
    → (claim_where r t ≡ is_eligible (map_report r) t)
      × (map_report (claim_set r now) ≡ claimed (map_report r) now)
      × (map_report (pending_retry_set r now) ≡ returned (map_report r) now)
      × (map_report (completed_set r text now) ≡ finished (map_report r) text now)
      × (map_report (failed_set r code reason now) ≡ failed (map_report r) code reason now)
unfolding map_report claim_where is_eligible claim_set claimed pending_retry_set returned
    completed_set finished failed_set failed
statements_agree r now t text code reason = (
  rw (is_stale-null r.processing_started_at t) refl,
  rw (or_now-coalesce r.started_at now) refl,
  refl,
  refl,
  rw (string_of-null_string code, string_of-null_string reason) refl,
)
