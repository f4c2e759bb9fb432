-- ===== src/Reports/Service.antt =====
-- internal/reports/service.go. The values that the code reads with `time.Now()` and `uuid.New()`
-- are arguments, in the order in which they are read; log lines are left out.
pub mod Evolution
pub mod History
pub mod Outcome
pub mod Access
pub mod Lease
pub mod Reconcile
use base_template_server_go.Base.{
  Bool, Duration, List, Option, String, Time, [], false, go_back, if◌then◌else◌, is_positive, leb,
  minute, nat_eq, none, not, pos, some, string_eq, ◌&&◌, ◌*◌, ◌==◌, ◌||◌, ◌∷◌,
}
use base_template_server_go.Errors.{
  GoError, bad_request, internal, is, make_retryable, no_rows, not_found, permission_denied,
  sentinel, validation, wrap,
}
use base_template_server_go.Op.{
  Op, Result, attempt, err, fail, guard, ignore, lift, map_err, ok, pure, ◌>>=◌, ◌>>◌,
}
use base_template_server_go.Authn.{
  AttemptInfo, Context, Principal, from_context, require_authenticated,
}
use base_template_server_go.Reports.Domain.{
  CreateRequest, Enqueuer, Report, TodoSummaryReader, Uuid, failure_retry_exhausted,
  failure_unsupported_type, job_generate, result_text, safe_failure_message, status_completed,
  status_failed, status_pending, status_processing, type_todo_summary,
}
use base_template_server_go.Reports.Store.{Store}

pub record Service (S : Type 0) : Type 0 where
  pub store : Store S
  pub summaries : TodoSummaryReader S
  pub enqueuer : Enqueuer S
  pub auth_disabled : Bool
  pub processing_lease : Duration
  pub reconcile_after : Duration

unfoldable pub new_service :
    {S : Type 0}
    → Store S
    → TodoSummaryReader S
    → Enqueuer S
    → Bool
    → Duration
    → Duration
    → Service S
new_service store summaries enqueuer auth_disabled processing_lease reconcile_after = record {
  store = store;
  summaries = summaries;
  enqueuer = enqueuer;
  auth_disabled = auth_disabled;
  processing_lease = if is_positive processing_lease then processing_lease else pos (5 * minute);
  reconcile_after = if is_positive reconcile_after then reconcile_after else pos minute;
}

denied : GoError
denied = wrap (sentinel permission_denied) "authentication required"

admit : Result (Unit {0}) → Bool → Principal → Result Principal
unfolding denied
admit (err _) auth_disabled p = err denied
admit (ok _) auth_disabled p = if not auth_disabled && p.user_id == "" then err denied else ok p

unfoldable pub principal : {S : Type 0} → Service S → Context → Result Principal
unfolding admit from_context require_authenticated
principal s ctx =
    let (p, _) = from_context ctx in
    admit (require_authenticated p s.auth_disabled) s.auth_disabled p

unfoldable pub assert_owner : Principal → Report → Result (Unit {0})
assert_owner p r =
    if r.owner_user_id == p.user_id
    then ok tt
    else err (wrap (sentinel permission_denied) "not your report")

unfoldable pub supported_type : String → Bool
supported_type t = t == type_todo_summary

unfoldable pub new_report : Principal → CreateRequest → Uuid → Time → Report
new_report p req id now = record {
  report_id = id;
  owner_user_id = p.user_id;
  type = req.type;
  status = status_pending;
  created_at = now;
  updated_at = now;
  started_at = none;
  completed_at = none;
  processing_started_at = none;
  failure_reason = "";
  failure_code = "";
  result = "";
}

get_failed : GoError → GoError
get_failed e =
    if is e no_rows
    then wrap (sentinel not_found) "report not found"
    else wrap (sentinel internal) "get report"

abbrev or_bad_id : Option Uuid → Result Uuid
or_bad_id (some id) = ok id
or_bad_id none = err (wrap (sentinel bad_request) "invalid report id")

-- info, ok := AttemptFromContext(ctx); ok && info.Attempt >= info.MaxAttempts
abbrev pub is_last_attempt : Option AttemptInfo → Bool
is_last_attempt none = false
is_last_attempt (some info) = leb info.max_attempts info.attempt

module _ {S : Type 0} (s : Service S) where
  unfoldable pub create_report : Context → CreateRequest → Uuid → Time → Op S Report
  unfolding principal supported_type new_report
  create_report ctx req new_id now = do
    p ← lift (principal s ctx)
    lift (guard (not (req.type == "")) (wrap (sentinel validation) "type is required"))
    lift (guard (supported_type req.type) (wrap (sentinel validation) "unsupported report type"))
    created ←
        map_err (λ _. wrap (sentinel internal) "create report")
          (s.store.create_report (new_report p req new_id now))
    ignore (s.enqueuer.enqueue job_generate (record { report_id = created.report_id }))
    pure created

  -- `parse` is uuid.Parse.
  unfoldable pub get_report : (String → Option Uuid) → Context → String → Op S Report
  unfolding principal assert_owner get_failed
  get_report parse ctx id = do
    p ← lift (principal s ctx)
    rid ← lift (or_bad_id (parse id))
    r ← map_err get_failed (s.store.get_report_by_id rid)
    lift (assert_owner p r)
    pure r

  unfoldable pub list_reports : Context → Op S (List Report)
  unfolding principal
  list_reports ctx = do
    p ← lift (principal s ctx)
    map_err (λ _. wrap (sentinel internal) "list reports") (s.store.list_reports_by_owner p.user_id)

  unfoldable pub handle_retryable : Context → Uuid → GoError → Time → Op S (Unit {0})
  unfolding make_retryable safe_failure_message
  handle_retryable ctx id cause at =
      if is_last_attempt ctx.attempt_info
      then (do
        ignore (
            s.store.mark_failed id failure_retry_exhausted
              (safe_failure_message failure_retry_exhausted "") at)
        pure tt)
      else attempt (s.store.mark_pending_retry id at)
          (λ e. if is e no_rows then fail (make_retryable cause) else fail (make_retryable e))
          (λ _. fail (make_retryable cause))

  -- The part of Generate behind the claim; `at` is the second clock reading.
  unfoldable pub run_claimed : Context → Uuid → Report → Time → Op S (Unit {0})
  unfolding supported_type
  run_claimed ctx id r at =
      if supported_type r.type
      then attempt (s.summaries.summary ctx) (λ e. handle_retryable ctx id e at)
          (λ summary.
            attempt (s.store.mark_completed id (result_text summary) at)
              (λ e. if is e no_rows then pure tt else fail (make_retryable e)) (λ _. pure tt))
      else (do
        ignore (
            s.store.mark_failed id failure_unsupported_type
              (safe_failure_message failure_unsupported_type "") at)
        pure tt)

  unfoldable pub claim_and_run : Context → Uuid → Report → Time → Time → Op S (Unit {0})
  claim_and_run ctx id r now at =
      attempt (s.store.claim_execution id now (go_back now s.processing_lease))
        (λ e. if is e no_rows then pure tt else fail (make_retryable e))
        (λ _. run_claimed ctx id r at)

  unfoldable pub generate : Context → Uuid → Time → Time → Op S (Unit {0})
  generate ctx id now at =
      attempt (s.store.get_report_by_id id)
        (λ e. if is e no_rows then pure tt else fail (make_retryable e))
        (λ r.
          if r.status == status_completed || r.status == status_failed
          then pure tt
          else if r.status == status_pending || r.status == status_processing
          then claim_and_run ctx id r now at
          else pure tt)

  -- for _, r := range list { enqueue(r) }: an error is logged, and the loop goes on.
  unfoldable pub enqueue_all : List Report → Op S (Unit {0})
  enqueue_all [] = pure tt
  enqueue_all (r ∷ rs) = do
    ignore (s.enqueuer.enqueue job_generate (record { report_id = r.report_id }))
    enqueue_all rs

  unfoldable pub reconcile_pending : Time → Op S (Unit {0})
  unfolding enqueue_all
  reconcile_pending now = do
    list ← s.store.list_pending_older_than (go_back now s.reconcile_after)
    enqueue_all list
