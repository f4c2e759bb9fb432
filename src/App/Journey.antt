-- ===== src/App/Journey.antt =====
-- A report from the request of a user to its result.

use base_template_server_go.Jobs.Runs.{behind_claim}
use base_template_server_go.Reports.Postgres.Laws.{Honest, lookup}
use base_template_server_go.App.Delivery.{report_delivered}
use base_template_server_go.Reports.Fake.{claimed, finished}
use base_template_server_go.Base.{
  Bool, Option, String, Time, [], ap, arith, false, nat_eq, nat_eq_refl, none, refl, some,
  string_eq, true, ℕ, ◌++◌, ◌<◌, ◌==◌, ◌∙◌, ◌∷◌, ◌≡◌, ◌≤◌,
}
use base_template_server_go.Op.{ok}
use base_template_server_go.Sql.{select_one, select_one-append}
use base_template_server_go.Authn.{Context, Principal}
use base_template_server_go.Config.{Config}
use base_template_server_go.Jobs.{Job, enqueue, is_due, new_queue, no_faults, pick, process_one}
use base_template_server_go.Reports.Domain.{
  CreateRequest, GenerateReportJob, Report, Uuid, job_generate, result_text, status_pending,
  type_todo_summary,
}
use base_template_server_go.Reports.Service as ReportsService
use base_template_server_go.Reports.Postgres.{ReportsReport, inserted, map_report-inserted}
use base_template_server_go.Reports.Postgres.Store as ReportsTable
use base_template_server_go.App.{
  Environment, Program, empty_queue, new, queue_enqueuer, reports_store,
}
use base_template_server_go.App.Stores.{IsUp, counts, report_rows}

abbrev pub todo_summary_order : CreateRequest
todo_summary_order = record { type = type_todo_summary }

-- CreateReport of a user who is let in, where the two capabilities answer.
created_and_queued :
    {S : Type 0} (s : ReportsService.Service S) (ctx : Context) (p : Principal) (id : Uuid)
    (now : Time) (w x y : S)
    → ReportsService.principal s ctx ≡ ok p
    → s.store.create_report (ReportsService.new_report p todo_summary_order id now) w
      ≡ (ok (ReportsService.new_report p todo_summary_order id now), x)
    → s.enqueuer.enqueue job_generate (record { report_id = id }) x ≡ (ok tt, y)
    → ReportsService.create_report s ctx todo_summary_order id now w
      ≡ (ok (ReportsService.new_report p todo_summary_order id now), y)
unfolding ReportsService.create_report ReportsService.supported_type ReportsService.new_report
created_and_queued s ctx p id now w x y k c q = rw (k, c, q) refl

inserted_id : (r : Report) → (inserted r).report_id ≡ r.report_id
unfolding inserted
inserted_id r = refl

new_fields :
    (p : Principal) (id : Uuid) (now : Time)
    → let r = ReportsService.new_report p todo_summary_order id now in
      (r.report_id ≡ id) × (r.status ≡ status_pending) × (r.type ≡ type_todo_summary)
unfolding ReportsService.new_report
new_fields p id now = (refl, refl, refl)

module _ {Float : Type 0} (cfg : Config Float) (env : Environment) where
  -- The program behind the INSERT of a report.
  abbrev pub with_report : Report → Program → Program
  with_report r w = record w { app = record w.app { reports = w.app.reports ++ inserted r ∷ [] } }

  -- The row of the job that is enqueued for it.
  abbrev pub job_row : String → Program → Job
  job_row body x = record {
    id = env.new_job_id x;
    type = job_generate;
    payload = body;
    run_at = env.clock x;
    attempts = 0;
    max_attempts = (empty_queue cfg).max_attempts;
    locked_until = none;
    completed_at = none;
    last_error = none;
  }

  stored :
      IsUp env
      → (r : Report) (w : Program)
      → select_one (ReportsTable.has_id r.report_id) w.app.reports ≡ none
      → (new cfg env).reports_service.store.create_report r w ≡ (ok r, with_report r w)
  unfolding new ReportsService.new_service reports_store ReportsTable.postgres_store
      ReportsTable.create_report
  stored (_, up) r w fresh =
      let other =
        ap (λ i. select_one (ReportsTable.has_id i) w.app.reports) (inserted_id r) ∙ fresh in
      rw (up ReportsTable.Statement.creating w.app.reports, other)
        (ap (λ q. (ok q, with_report r w)) (map_report-inserted r))

  queued :
      (job : GenerateReportJob) (body : String) (x : Program)
      → env.json.marshal_report_job job ≡ ok body
      → env.insert_fails x ≡ none
      → (new cfg env).reports_service.enqueuer.enqueue job_generate job x
        ≡ (ok tt, record x { jobs = x.jobs ++ job_row body x ∷ [] })
  unfolding new ReportsService.new_service queue_enqueuer enqueue
  queued job body x m f = rw (m, f) refl

  has_attempts : 0 < (empty_queue cfg).max_attempts
  unfolding new_queue
  has_attempts = ground arith

  only_job :
      (j : Job) (t : Time) (held : ℕ → Bool)
      → j.run_at ≤ t
      → j.completed_at ≡ none
      → j.locked_until ≡ none
      → (0 < j.max_attempts)
      → j.attempts ≡ 0
      → held j.id ≡ false
      → pick t held (j ∷ []) ≡ some j
  unfolding pick is_due
  only_job j t held le c l m a h = rw (c, l, a, h) (ground (arith, le, m))

absent : (o : Option ReportsReport) → lookup o ≡ none → o ≡ none
absent none e = refl
absent (some r) e = absurd (cc e)

module _ {Float : Type 0} (cfg : Config Float) (env : Environment) (up : IsUp env)
    (honest : Honest env.reports_db) (ctx : Context) (p : Principal) (id : Uuid) (now : Time)
    (w : Program) where
  abbrev pub ordered : Report
  ordered = ReportsService.new_report p todo_summary_order id now

  abbrev pub queued_job : String → Job
  queued_job body = job_row cfg env body (with_report cfg env ordered w)

  abbrev behind_order : String → Program
  behind_order body = record (with_report cfg env ordered w) {
    jobs = w.jobs ++ queued_job body ∷ [];
  }

  abbrev MissingId : Type 0
  MissingId = report_rows w id ≡ none

  ordered_now :
      (body : String)
      → ReportsService.principal (new cfg env).reports_service ctx ≡ ok p
      → MissingId
      → env.json.marshal_report_job (record { report_id = id }) ≡ ok body
      → env.insert_fails (with_report cfg env ordered w) ≡ none
      → ReportsService.create_report (new cfg env).reports_service ctx todo_summary_order id now w
        ≡ (ok ordered, behind_order body)
  ordered_now body k fresh m f =
      let none' =
        ap (λ i. select_one (ReportsTable.has_id i) w.app.reports) (new_fields p id now).0
        ∙ absent _ fresh in
      created_and_queued (new cfg env).reports_service ctx p id now w
        (with_report cfg env ordered w) (behind_order body) k (stored cfg env up ordered w none')
        (queued cfg env (record { report_id = id }) body (with_report cfg env ordered w) m f)

  ordered_row : (body : String) → MissingId → report_rows (behind_order body) id ≡ some ordered
  ordered_row body fresh =
      let hit : ((inserted ordered).report_id == id) ≡ true =
        ap (λ i. i == id) (inserted_id ordered ∙ (new_fields p id now).0) ∙ nat_eq_refl id in
      ap lookup (
        select_one-append (ReportsTable.has_id id) w.app.reports (inserted ordered) (absent _ fresh)
          hit)
      ∙ ap some (map_report-inserted ordered)

  -- While the database answers: if a user who is let in asks for a report of the type todo-summary
  -- under a new id, while no job is in the table, and the payload of its job survives JSON, then
  -- CreateReport returns the report as pending, and the next processOne, at a time at which the job
  -- has been enqueued and no other transaction holds it, completes that report with the text of the
  -- counts of the todos.
  pub report_made :
      (body : String) (worker : Context) (t later : Time) (held : ℕ → Bool)
      → ReportsService.principal (new cfg env).reports_service ctx ≡ ok p
      → w.jobs ≡ []
      → report_rows w id ≡ none
      → env.json.marshal_report_job (record { report_id = id }) ≡ ok body
      → env.json.unmarshal_report_job body ≡ some (record { report_id = id })
      → env.insert_fails (with_report cfg env ordered w) ≡ none
      → (queued_job body).run_at ≤ t
      → held (queued_job body).id ≡ false
      → let made =
          ReportsService.create_report
            (new cfg env).reports_service
            ctx
            todo_summary_order
            id
            now
            w in
        let start = behind_claim t (queued_job body) made.1 in
        let (res, z) = process_one (new cfg env).queue worker no_faults t held later made.1 in
        (made.0 ≡ ok ordered)
        × (res ≡ ok tt)
        × (report_rows z id
            ≡ some (
                finished
                  (claimed ordered (env.clock start))
                  (result_text (counts w.app.todos))
                  (env.later start)))
  report_made body worker t later held k empty fresh m back f due free =
      let j = queued_job body in
      let (rid, pending, type) = new_fields p id now in
      let first = ordered_now body k fresh m f in
      let picked : pick t held (behind_order body).jobs ≡ some j =
        ap (λ l. pick t held (l ++ j ∷ [])) empty
        ∙ only_job cfg env j t held due refl refl (has_attempts cfg env) refl free in
      let (done, jobs, rows) =
        report_delivered cfg env up honest worker t held later (behind_order body) j
          (record { report_id = id }) ordered picked refl back (ordered_row body fresh) pending
          type in
      rw first (refl, done, rows id ∙ rw (nat_eq_refl id) refl)
