-- ===== src/Reports/Service/Outcome.antt =====
-- Generate as a function of one row: what it leaves and what it returns, when the store answers.
pub mod Marks
pub mod Claims
pub mod Runs
use base_template_server_go.Base.{
  Bool, Option, Time, false, if◌then◌else◌, nat_eq, none, some, string_eq, true, ◌==◌, ◌≡◌,
}
use base_template_server_go.Errors.{make_retryable}
use base_template_server_go.Op.{Result, err, ok}
use base_template_server_go.Reports.Domain.{
  Report, TodoSummary, Uuid, failure_retry_exhausted, failure_unsupported_type, result_text,
}
use base_template_server_go.Reports.Fake.{claimed, failed, finished, is_eligible, returned}
use base_template_server_go.Reports.Spec.{Rows}
use base_template_server_go.Reports.Service.{supported_type}

-- The end of a claimed run, from the answer of the summary reader.
abbrev pub ending : Bool → Result TodoSummary → Time → Report → Report × Result (Unit {0})
ending last (ok summary) at r = (finished r (result_text summary) at, ok tt)
ending true (err e) at r =
    (failed r failure_retry_exhausted "report generation failed after retries" at, ok tt)
ending false (err e) at r = (returned r at, err (make_retryable e))

-- What Generate makes of a row: nothing of a missing or an ineligible one; an eligible one is
-- claimed, and then completed, failed, or handed back for a retry.
abbrev pub outcome :
    Bool
    → Result TodoSummary
    → Time
    → Time
    → Time
    → Option Report
    → Option Report × Result (Unit {0})
outcome last answer now stale_before at none = (none, ok tt)
outcome last answer now stale_before at (some r) =
    if is_eligible r stale_before
    then (if supported_type r.type
        then (let (q, res) = ending last answer at (claimed r now) in (some q, res))
        else (
          some (failed (claimed r now) failure_unsupported_type "unsupported report type" at),
          ok tt,
        ))
    else (some r, ok tt)

-- The rows after a run that leaves `row` at `id`, and its answer.
abbrev pub Leaves :
    {S : Type 0}
    → (S → Rows)
    → Rows
    → Uuid
    → Option Report × Result (Unit {0})
    → Result (Unit {0}) × S
    → Type 0
Leaves rows before id (row, res) (got, z) =
    (got ≡ res) × ((j : Uuid) → rows z j ≡ (if id == j then row else before j))

abbrev pub settled : Report → Report × Result (Unit {0}) → Option Report × Result (Unit {0})
settled q (r, res) = (some r, res)
