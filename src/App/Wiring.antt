-- ===== src/App/Wiring.antt =====
-- The services that New builds, over the tables of the program.
use base_template_server_go.Jobs.Serving.{AllAside}
use base_template_server_go.Reports.Postgres.Store.{postgres_store}
use base_template_server_go.Authn.{Context, from_context, require_authenticated, with_principal}
use base_template_server_go.Config.{Config}
use base_template_server_go.Moves.{Moves, Order, moves_rules}
use base_template_server_go.Base.{
  Bool-cases, Option-cases, String, Time, ap, arith, count_if, inl, inr, length, nat_eq, none, refl,
  string_eq, sym, ◌-◌, ◌==◌, ◌∙◌, ◌≡◌,
}
use base_template_server_go.Op.{Op, Result, ok}
use base_template_server_go.Jobs.{
  Handler, Queue, assign_handler, enqueue, handler_of, new_queue, register,
}
use base_template_server_go.Todos
use base_template_server_go.Todos.Service as TodosService
use base_template_server_go.Todos.Postgres as TodosTable
use base_template_server_go.Reports.Domain.{Uuid, job_generate}
use base_template_server_go.Reports.Spec.{Reliable, Wired}
use base_template_server_go.Reports.Service as ReportsService
use base_template_server_go.Reports.Postgres.Store as ReportsTable
use base_template_server_go.Reports.Postgres.Laws.{Honest, table_rows}
use base_template_server_go.App.{
  Environment, Program, Tables, audit_created, audit_job, empty_queue, enqueue_now, generate_report,
  new, on_reports, on_todos, queue_enqueuer, reports_store, system_principal, todo_store,
  todo_summary_adapter,
}
use base_template_server_go.App.Stores.{
  IsUp, counts, report_rows, reports-Reliable, reports_store-StoreLaws,
}

abbrev KeepsReports : Program → Program → Type 0
KeepsReports w u = u.app.reports ≡ w.app.reports

abbrev KeepsJobs : Program → Program → Type 0
KeepsJobs w u = u.jobs ≡ w.jobs

KeepsReports-Order : Order KeepsReports
KeepsReports-Order = record { reflexive = λ w. refl; transitive = λ u v w h k. k ∙ h }

KeepsJobs-Order : Order KeepsJobs
KeepsJobs-Order = record { reflexive = λ w. refl; transitive = λ u v w h k. k ∙ h }

todos-reports : {A : Type 0} (m : Op TodosTable.Table A) → Moves KeepsReports (on_todos m)
todos-reports m = record { at = λ w. refl }

todos-jobs : {A : Type 0} (m : Op TodosTable.Table A) → Moves KeepsJobs (on_todos m)
todos-jobs m = record { at = λ w. refl }

reports-jobs : {A : Type 0} (m : Op ReportsTable.Table A) → Moves KeepsJobs (on_reports m)
reports-jobs m = record { at = λ w. refl }

pub enqueue_now-reports :
    {P : Type 0} (marshal : P → Result String) (env : Environment) (q : Queue Tables)
    (type : String) (payload : P)
    → Moves KeepsReports (enqueue_now marshal env q type payload)
unfolding enqueue
enqueue_now-reports marshal env q type payload = record { at = λ w. ground arith }

adapted :
    (svc : TodosService.Service Program) (ctx : Context) (w : Program) (s : Todos.Summary)
    → TodosService.authorize svc ctx ≡ ok tt
    → svc.store.count_todos w ≡ (ok s, w)
    → (todo_summary_adapter svc).summary ctx w
      ≡ (ok (record { total = s.total; completed = s.completed; outstanding = s.outstanding }), w)
unfolding todo_summary_adapter TodosService.summary
adapted svc ctx w s a c = rw (a, c) refl

counted :
    (db : TodosTable.Database) (w : Program)
    → db.fails TodosTable.Statement.counting w.app.todos ≡ none
    → (todo_store db).count_todos w ≡ (
      ok (record {
        total = length w.app.todos;
        completed = count_if (λ r. r.completed) w.app.todos;
        outstanding = length w.app.todos - count_if (λ r. r.completed) w.app.todos;
      }),
      w,
    )
unfolding todo_store TodosTable.postgres_store TodosTable.count_todos
counted db w up = rw up refl

module _ {Float : Type 0} (cfg : Config Float) (env : Environment) where
  summary-reports :
      (ctx : Context) → Moves KeepsReports ((new cfg env).reports_service.summaries.summary ctx)
  unfolding new todo_summary_adapter TodosService.summary TodosService.new_service todo_store
      ReportsService.new_service
  summary-reports ctx = search (moves_rules, KeepsReports-Order, todos-reports) depth 10

  pub app-Wired : Honest env.reports_db → Wired (new cfg env).reports_service report_rows
  unfolding new queue_enqueuer ReportsService.new_service
  app-Wired honest = record {
    laws = reports_store-StoreLaws env.reports_db honest;
    summary_quiet = λ ctx w id. ap (λ t. table_rows t id) ((summary-reports ctx).at w);
    enqueue_quiet = λ name job w id.
        ap (λ t. table_rows t id)
          ((enqueue_now-reports env.json.marshal_report_job env (empty_queue cfg) name job).at w);
  }

  pub generate-jobs :
      (ctx : Context) (id : Uuid) (now at : Time)
      → Moves KeepsJobs (ReportsService.generate (new cfg env).reports_service ctx id now at)
  unfolding new todo_summary_adapter TodosService.summary TodosService.new_service todo_store
      ReportsService.new_service ReportsService.generate ReportsService.claim_and_run
      ReportsService.run_claimed ReportsService.handle_retryable reports_store
  generate-jobs ctx id now at =
      search (moves_rules, KeepsJobs-Order, todos-jobs, reports-jobs) depth 14

  generate_report-jobs :
      (c : Context) (payload : String)
      → Moves KeepsJobs (generate_report env (new cfg env).reports_service c payload)
  unfolding generate_report
  generate_report-jobs c payload = record {
    at = λ w. elim (Option-cases (env.json.unmarshal_report_job payload)) [
      | inl bad ↦ rw bad refl
      | inr (job, e) ↦ rw e (
          (generate-jobs (with_principal c system_principal) job.report_id (env.clock w)
              (env.later w)).at
            w)
    ];
  }

  -- The jobs of the program enqueue none.
  pub app-AllAside : AllAside (new cfg env).queue
  unfolding new register assign_handler handler_of new_queue
  app-AllAside name f e c payload w = elim (Bool-cases (audit_job == name)) [
    | inl audit ↦
        let same : audit_created ≡ f = cc (rw audit at e) in
        ap (λ (h : Handler Tables). (h c payload w).1.jobs) (sym same)
    | inr other ↦ elim (Bool-cases (job_generate == name)) [
      | inl report ↦
          let same : generate_report env (new cfg env).reports_service ≡ f =
            cc (rw (other, report) at e) in
          ap (λ (h : Handler Tables). (h c payload w).1.jobs) (sym same)
          ∙ (generate_report-jobs c payload).at w
      | inr unknown ↦ absurd (cc (rw (other, unknown) at e))
    ]
  ]

  pub authorized :
      (ctx : Context)
      → TodosService.authorize (new cfg env).todos_service (with_principal ctx system_principal)
        ≡ ok tt
  unfolding new TodosService.authorize TodosService.new_service with_principal from_context
      require_authenticated
  authorized ctx = elim (Bool-cases cfg.auth.disabled) [
    | inl off ↦ rw off refl
    | inr on ↦ rw on refl
  ]

  pub summarised :
      IsUp env
      → (ctx : Context) (w : Program)
      → (new cfg env).reports_service.summaries.summary (with_principal ctx system_principal) w
        ≡ (ok (counts w.app.todos), w)
  unfolding new TodosService.new_service ReportsService.new_service
  summarised (up, _) ctx w =
      adapted (new cfg env).todos_service (with_principal ctx system_principal) w _ (authorized ctx)
        (counted env.todos_db w (up TodosTable.Statement.counting w.app.todos))

  pub app-Reliable : IsUp env → Reliable (new cfg env).reports_service.store
  unfolding new ReportsService.new_service
  app-Reliable up = reports-Reliable env up
