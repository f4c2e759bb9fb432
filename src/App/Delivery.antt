-- ===== src/App/Delivery.antt =====
-- A job of kind reports.generate, from the queue to the report.

use base_template_server_go.Jobs.Runs.{attempt_of, behind_claim, handled_ok}
use base_template_server_go.Base.{
  Bool, Option, String, Time, ap, go_back, if◌then◌else◌, nat_eq, refl, some, string_eq, subst, ℕ,
  ◌==◌, ◌∙◌, ◌≡◌,
}
use base_template_server_go.Op.{Result, ok}
use base_template_server_go.Authn.{Context, with_principal}
use base_template_server_go.Config.{Config}
use base_template_server_go.Jobs.{
  Job, assign_handler, handler_of, locked, new_queue, no_faults, pick, process_one, register,
  succeeded, update,
}
use base_template_server_go.Reports.Domain.{
  GenerateReportJob, Report, TodoSummary, Uuid, job_generate, result_text, status_pending,
  type_todo_summary,
}
use base_template_server_go.Reports.Fake.{claimed, finished, is_eligible}
use base_template_server_go.Reports.Service as ReportsService
use base_template_server_go.Reports.Service.Outcome.{Leaves, outcome}
use base_template_server_go.Reports.Service.Outcome.Claims.{taken}
use base_template_server_go.Reports.Service.Outcome.Runs.{generate-outcome}
use base_template_server_go.Reports.Postgres.Laws.{Honest}
use base_template_server_go.App.{
  Environment, Program, generate_for, generate_report, new, reports_store, system_principal,
}
use base_template_server_go.App.Stores.{IsUp, counts, report_rows}
use base_template_server_go.App.Wiring.{app-Reliable, app-Wired, generate-jobs, summarised}

outcome_pending :
    (last : Bool) (s : TodoSummary) (now t at : Time) (r : Report) (o : Option Report)
    → o ≡ some r
    → r.status ≡ status_pending
    → r.type ≡ type_todo_summary
    → outcome last (ok s) now t at o ≡ (some (finished (claimed r now) (result_text s) at), ok tt)
unfolding is_eligible ReportsService.supported_type
outcome_pending last s now t at r o e p k = rw (e, p, k) refl

module _ {Float : Type 0} (cfg : Config Float) (env : Environment) (up : IsUp env)
    (honest : Honest env.reports_db) where
  abbrev reports : ReportsService.Service Program
  reports = (new cfg env).reports_service

  behind_taken :
      (id : Uuid) (now : Time) (y : Program)
      → (taken reports id now (reports.store.get_report_by_id id y).1).app.todos ≡ y.app.todos
  unfolding new reports_store ReportsService.new_service
  behind_taken id now y = refl

  ran :
      (ctx : Context) (job : GenerateReportJob) (y : Program)
      → Leaves report_rows
          (report_rows y)
          job.report_id
          (outcome
            (ReportsService.is_last_attempt ctx.attempt_info)
            (ok (counts y.app.todos))
            (env.clock y)
            (go_back (env.clock y) reports.processing_lease)
            (env.later y)
            (report_rows y job.report_id))
          (generate_for env reports ctx (some job) y)
  unfolding with_principal
  ran ctx job y =
      generate-outcome reports report_rows (app-Wired cfg env honest) (app-Reliable cfg env up)
        (with_principal ctx system_principal) job.report_id (env.clock y) (env.later y)
        (ok (counts y.app.todos)) y
        (ap (λ r. r.0)
            (summarised cfg env up ctx (
              taken reports job.report_id (env.clock y)
                (reports.store.get_report_by_id job.report_id y).1))
          ∙ ap (λ t. ok (counts t)) (behind_taken job.report_id (env.clock y) y))

  generate_handler :
      handler_of job_generate (new cfg env).queue.handlers ≡ some (generate_report env reports)
  unfolding new register assign_handler handler_of new_queue
  generate_handler = refl

  run :
      (c : Context) (payload : String) (job : GenerateReportJob)
      → env.json.unmarshal_report_job payload ≡ some job
      → generate_report env reports c payload ≡ generate_for env reports c (some job)
  unfolding generate_report
  run c payload job e = ap (generate_for env reports c) e

  delivered :
      (ctx : Context) (job : GenerateReportJob) (y : Program) (r : Report)
      → report_rows y job.report_id ≡ some r
      → r.status ≡ status_pending
      → r.type ≡ type_todo_summary
      → Leaves report_rows
          (report_rows y)
          job.report_id
          (
            some (
                finished
                  (claimed r (env.clock y))
                  (result_text (counts y.app.todos))
                  (env.later y)),
            ok tt,
          )
          (generate_for env reports ctx (some job) y)
  delivered ctx job y r e p t =
      subst
        (λ (o : Option Report × Result (Unit {0})).
          Leaves report_rows (report_rows y) job.report_id o
            (generate_for env reports ctx (some job) y))
        (outcome_pending (ReportsService.is_last_attempt ctx.attempt_info) _ _ _ _ r _ e p t)
        (ran ctx job y)

  -- Where no statement fails and no failure passes for a missing row, processOne on a job of kind
  -- reports.generate whose payload parses and whose report is pending and of the type todo-summary
  -- completes that report with the text of the counts of the todos, leaves every other report as it
  -- was, marks the job as completed, and returns no error.
  pub report_delivered :
      (ctx : Context) (now : Time) (held : ℕ → Bool) (later : Time) (w : Program) (j : Job)
      (job : GenerateReportJob) (r : Report)
      → pick now held w.jobs ≡ some j
      → j.type ≡ job_generate
      → env.json.unmarshal_report_job j.payload ≡ some job
      → report_rows w job.report_id ≡ some r
      → r.status ≡ status_pending
      → r.type ≡ type_todo_summary
      → let y = behind_claim now j w in
        let (res, z) = process_one (new cfg env).queue ctx no_faults now held later w in
        (res ≡ ok tt)
        × (z.jobs ≡ update j.id (succeeded later) (update j.id (locked now) w.jobs))
        × ((i : Uuid)
            → report_rows z i ≡ (
                if job.report_id == i
                then some (
                    finished
                      (claimed r (env.clock y))
                      (result_text (counts w.app.todos))
                      (env.later y))
                else report_rows w i))
  report_delivered ctx now held later w j job r e k parsed row p t =
      let y = behind_claim now j w in
      let h = generate_report env reports in
      let (got, left) = delivered (attempt_of ctx j) job y r row p t in
      let here : handler_of j.type (new cfg env).queue.handlers ≡ some h =
        ap (λ n. handler_of n (new cfg env).queue.handlers) k ∙ generate_handler in
      let c = attempt_of ctx j in
      let all =
        handled_ok (new cfg env).queue ctx now held later w j h
          (generate_for env reports c (some job)) e here (run c j.payload job parsed) got in
      let quiet =
        (generate-jobs cfg env (with_principal c system_principal) job.report_id (env.clock y)
            (env.later y)).at
          y in
      (
        ap (λ q. q.0) all,
        ap (λ q. q.1.jobs) all ∙ ap (update j.id (succeeded later)) quiet,
        λ i. ap (λ q. report_rows q.1 i) all ∙ left i,
      )
