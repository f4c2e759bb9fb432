-- ===== src/Reports/Fake.antt =====
-- internal/reports/fake_store.go: the in-memory store, summary reader and enqueuer. The Go map is
-- an association list; its iteration order is the order of insertion here.
pub mod Keys
pub mod Laws
pub mod Implements
pub mod Bench
use base_template_server_go.Base.{
  Bool, List, Option, String, Time, [], if◌then◌else◌, ltb, nat_eq, none, select, some, string_eq,
  true, ℕ, ◌&&◌, ◌++◌, ◌+◌, ◌==◌, ◌||◌, ◌∷◌,
}
use base_template_server_go.Errors.{GoError, no_rows, sentinel}
use base_template_server_go.Op.{Op, Result, err, ok}
use base_template_server_go.Reports.Domain.{
  GenerateReportJob, Report, TodoSummary, TodoSummaryReader, Uuid, status_completed, status_failed,
  status_pending, status_processing,
}
use base_template_server_go.Reports.Store.{Store}

abbrev pub FakeStore : Type 0
FakeStore = List Report

unfoldable pub find : Uuid → FakeStore → Option Report
find id [] = none
find id (r ∷ rs) = if r.report_id == id then some r else find id rs

-- f.reports[r.ReportID] = r
unfoldable pub assign : Report → FakeStore → FakeStore
assign r [] = r ∷ []
assign r (x ∷ xs) = if x.report_id == r.report_id then r ∷ xs else x ∷ assign r xs

-- processing_started_at == nil || processing_started_at < stale_before
abbrev pub is_stale : Option Time → Time → Bool
is_stale none stale_before = true
is_stale (some t) stale_before = ltb t stale_before

unfoldable pub is_eligible : Report → Time → Bool
is_eligible r stale_before =
    r.status == status_pending
    || (r.status == status_processing && is_stale r.processing_started_at stale_before)

abbrev pub or_now : Option Time → Time → Option Time
or_now none now = some now
or_now (some t) now = some t

unfoldable pub claimed : Report → Time → Report
claimed r now = record r {
  status = status_processing;
  updated_at = now;
  processing_started_at = some now;
  started_at = or_now r.started_at now;
  failure_reason = "";
  failure_code = "";
}

unfoldable pub returned : Report → Time → Report
returned r at = record r {
  status = status_pending;
  processing_started_at = none;
  updated_at = at;
  failure_reason = "";
  failure_code = "";
}

unfoldable pub finished : Report → String → Time → Report
finished r result at = record r {
  status = status_completed;
  result = result;
  completed_at = some at;
  updated_at = at;
  processing_started_at = none;
  failure_reason = "";
  failure_code = "";
}

unfoldable pub failed : Report → String → String → Time → Report
failed r code reason at = record r {
  status = status_failed;
  failure_code = code;
  failure_reason = reason;
  completed_at = some at;
  updated_at = at;
  processing_started_at = none;
}

create_report : Report → Op FakeStore Report
create_report r f = (ok r, assign r f)

or_no_rows : Option Report → Result Report
or_no_rows none = err (sentinel no_rows)
or_no_rows (some r) = ok r

get_report_by_id : Uuid → Op FakeStore Report
get_report_by_id id f = (or_no_rows (find id f), f)

list_reports_by_owner : String → Op FakeStore (List Report)
list_reports_by_owner owner f = (ok (select (λ r. r.owner_user_id == owner) f), f)

-- The common shape of the four updates: a missing or unfit row is `sql.ErrNoRows`.
update_if : (Report → Bool) → (Report → Report) → Option Report → Op FakeStore Report
update_if test change none f = (err (sentinel no_rows), f)
update_if test change (some r) f =
    if test r then (ok (change r), assign (change r) f) else (err (sentinel no_rows), f)

claim_execution : Uuid → Time → Time → Op FakeStore Report
claim_execution id now stale_before f =
    update_if (λ r. is_eligible r stale_before) (λ r. claimed r now) (find id f) f

mark_pending_retry : Uuid → Time → Op FakeStore Report
mark_pending_retry id at f =
    update_if (λ r. r.status == status_processing) (λ r. returned r at) (find id f) f

mark_completed : Uuid → String → Time → Op FakeStore Report
mark_completed id result at f =
    update_if (λ r. r.status == status_processing) (λ r. finished r result at) (find id f) f

mark_failed : Uuid → String → String → Time → Op FakeStore Report
mark_failed id code reason at f =
    update_if (λ r. r.status == status_processing) (λ r. failed r code reason at) (find id f) f

list_pending_older_than : Time → Op FakeStore (List Report)
list_pending_older_than updated_before f =
    (ok (select (λ r. r.status == status_pending && ltb r.updated_at updated_before) f), f)

unfoldable pub store : Store FakeStore
unfolding create_report get_report_by_id list_reports_by_owner claim_execution mark_pending_retry
    mark_completed mark_failed list_pending_older_than update_if or_no_rows
store = record {
  create_report = create_report;
  get_report_by_id = get_report_by_id;
  list_reports_by_owner = list_reports_by_owner;
  claim_execution = claim_execution;
  mark_pending_retry = mark_pending_retry;
  mark_completed = mark_completed;
  mark_failed = mark_failed;
  list_pending_older_than = list_pending_older_than;
}

-- FakeSummary, a reader with a fixed answer.
pub record FakeSummary : Type 0 where
  pub value : TodoSummary
  pub err : Option GoError

abbrev pub answer_of : FakeSummary → Result TodoSummary
answer_of f = elim f.err [ none ↦ ok f.value | some e ↦ err e ]

unfoldable pub summary_of : {S : Type 0} → FakeSummary → TodoSummaryReader S
summary_of f = record { summary = λ ctx s. (answer_of f, s) }

-- FakeEnqueuer, which records its calls and answers `Err`.
pub record FakeEnqueuer : Type 0 where
  pub err : Option GoError
  pub calls : ℕ
  pub last_job : String
  pub last_pay : Option GenerateReportJob
  pub payloads : List GenerateReportJob

unfoldable pub fake_enqueue : String → GenerateReportJob → Op FakeEnqueuer (Unit {0})
fake_enqueue name job f = (
  elim f.err [ none ↦ ok tt | some e ↦ err e ],
  record f {
    calls = f.calls + 1;
    last_job = name;
    last_pay = some job;
    payloads = f.payloads ++ job ∷ [];
  },
)
