-- ===== src/App.antt =====
-- internal/app/app.go: how New puts the parts together. The state is the table of jobs beside the
-- tables of todos, reports and authentication. What a call reads of the clock, draws as a new id, or
-- meets as a failure of an INSERT is a function of the state.
pub mod Stores
pub mod Wiring
pub mod Delivery
pub mod Journey
pub mod Steps
pub mod Sound
pub mod Safety
pub mod Loops
pub mod Routes
mod Tests
mod Runs
use base_template_server_go.Base.{Option, String, Time, [], negsuc, none, pos, some, ℕ, ℤ, ◌∷◌}
use base_template_server_go.Errors.{GoError, text}
use base_template_server_go.Op.{Op, Result, ok, pure, zoom, ◌>>=◌, ◌>>◌}
use base_template_server_go.Authn.{Context, Principal, with_principal}
use base_template_server_go.Config.{Config}
use base_template_server_go.Jobs
use base_template_server_go.Jobs.{Handler, Queue, World, enqueue, new_queue, register}
use base_template_server_go.Events.{Bus, new_bus, subscribe}
use base_template_server_go.Events
use base_template_server_go.Todos
use base_template_server_go.Auth
use base_template_server_go.Auth.Service as AuthService
use base_template_server_go.Auth.Postgres as AuthTable
use base_template_server_go.Todos.Service as TodosService
use base_template_server_go.Todos.Postgres as TodosTable
use base_template_server_go.Reports.Domain.{
  Enqueuer, GenerateReportJob, TodoSummaryReader, job_generate,
}
use base_template_server_go.Reports.Store.{Store}
use base_template_server_go.Reports.Service as ReportsService
use base_template_server_go.Reports.Postgres.Store as ReportsTable

pub record Tables : Type 0 where
  pub todos : TodosTable.Table
  pub reports : ReportsTable.Table
  pub auth : AuthTable.Tables

abbrev pub Program : Type 0
Program = World Tables

-- json.Marshal and json.Unmarshal for the payloads of the two kinds of jobs.
pub record Json : Type 0 where
  pub marshal_todo : Todos.Todo → Result String
  pub marshal_report_job : GenerateReportJob → Result String
  pub unmarshal_report_job : String → Option GenerateReportJob

pub record Environment : Type 0 where
  pub todos_db : TodosTable.Database
  pub reports_db : ReportsTable.Database
  pub auth_db : AuthTable.Database
  pub json : Json
  pub new_job_id : Program → ℕ
  pub insert_fails : Program → Option GoError
  pub clock : Program → Time
  pub later : Program → Time

abbrev pub on_todos : {A : Type 0} → Op TodosTable.Table A → Op Program A
on_todos m =
    zoom (λ (w : Program). w.app.todos) (λ t w. record w { app = record w.app { todos = t } }) m

abbrev pub on_reports : {A : Type 0} → Op ReportsTable.Table A → Op Program A
on_reports m =
    zoom (λ (w : Program). w.app.reports) (λ t w. record w { app = record w.app { reports = t } }) m

abbrev pub on_auth : {A : Type 0} → Op AuthTable.Tables A → Op Program A
on_auth m =
    zoom (λ (w : Program). w.app.auth) (λ t w. record w { app = record w.app { auth = t } }) m

-- todopg.NewStore(db)
unfoldable pub todo_store : TodosTable.Database → Todos.Store Program
todo_store db =
    let st : Todos.Store TodosTable.Table = TodosTable.postgres_store db in
    record {
      create_todo = λ arg. on_todos (st.create_todo arg);
      update_todo = λ arg. on_todos (st.update_todo arg);
      delete_todo = λ id. on_todos (st.delete_todo id);
      find_todo_by_id = λ id. on_todos (st.find_todo_by_id id);
      list_all_todos = on_todos st.list_all_todos;
      count_todos = on_todos st.count_todos;
    }

-- reportspg.NewStore(db)
unfoldable pub reports_store : ReportsTable.Database → Store Program
reports_store db =
    let st : Store ReportsTable.Table = ReportsTable.postgres_store db in
    record {
      create_report = λ r. on_reports (st.create_report r);
      get_report_by_id = λ id. on_reports (st.get_report_by_id id);
      list_reports_by_owner = λ owner. on_reports (st.list_reports_by_owner owner);
      claim_execution = λ id now t. on_reports (st.claim_execution id now t);
      mark_pending_retry = λ id at. on_reports (st.mark_pending_retry id at);
      mark_completed = λ id text at. on_reports (st.mark_completed id text at);
      mark_failed = λ id code reason at. on_reports (st.mark_failed id code reason at);
      list_pending_older_than = λ t. on_reports (st.list_pending_older_than t);
    }

-- authpg.NewStore(db)
unfoldable pub auth_store : AuthTable.Database → Auth.Store Program
auth_store db =
    let st : Auth.Store AuthTable.Tables = AuthTable.postgres_store db in
    record {
      create_user = λ arg. on_auth (st.create_user arg);
      get_user_by_email = λ email. on_auth (st.get_user_by_email email);
      get_user_by_id = λ id. on_auth (st.get_user_by_id id);
      create_session = λ arg. on_auth (st.create_session arg);
      get_session = λ id. on_auth (st.get_session id);
      delete_session = λ id. on_auth (st.delete_session id);
      create_api_token = λ arg. on_auth (st.create_api_token arg);
      get_api_token_by_hash = λ hash. on_auth (st.get_api_token_by_hash hash);
    }

-- todoSummaryAdapter
unfoldable pub todo_summary_adapter : TodosService.Service Program → TodoSummaryReader Program
todo_summary_adapter svc = record {
  summary = λ ctx. do
    s ← TodosService.summary svc ctx
    pure (record { total = s.total; completed = s.completed; outstanding = s.outstanding });
}

-- A call of queue.Enqueue with the zero time, of which only the error is kept.
abbrev pub enqueue_now :
    {P : Type 0}
    → (P → Result String)
    → Environment
    → Queue Tables
    → String
    → P
    → Op Program (Unit {0})
enqueue_now marshal env q type payload w =
    (do
      id ← enqueue marshal q type payload none (env.new_job_id w) (env.clock w) (env.insert_fails w)
      pure tt)
      w

-- queueEnqueuer
unfoldable pub queue_enqueuer : Environment → Queue Tables → Enqueuer Program
unfolding enqueue
queue_enqueuer env q = record {
  enqueue = λ name job. enqueue_now env.json.marshal_report_job env q name job;
}

abbrev pub audit_job : String
audit_job = "todos.audit_created"

-- The handler of todos.audit_created only writes a log line.
abbrev pub audit_created : Jobs.Handler Tables
audit_created ctx payload = pure tt

abbrev pub system_principal : Principal
system_principal = record { user_id = "system"; roles = "system" ∷ []; auth_method = "job" }

abbrev pub generate_for :
    Environment
    → ReportsService.Service Program
    → Context
    → Option GenerateReportJob
    → Op Program (Unit {0})
generate_for env svc ctx none w = (ok tt, w)
generate_for env svc ctx (some job) w =
    ReportsService.generate svc (with_principal ctx system_principal) job.report_id (env.clock w)
      (env.later w) w

-- The handler of reports.generate; a payload that does not parse ends the job.
unfoldable pub generate_report : Environment → ReportsService.Service Program → Jobs.Handler Tables
generate_report env svc ctx payload =
    generate_for env svc ctx (env.json.unmarshal_report_job payload)

-- The subscriber of todos.created.
unfoldable pub audit_subscriber : Environment → Queue Tables → Events.Handler Program Todos.Todo
unfolding enqueue
audit_subscriber env q ctx event = enqueue_now env.json.marshal_todo env q audit_job event.payload

-- A count that is negative is 0 here: NewQueue takes both for its default.
abbrev to_count : ℤ → ℕ
to_count (pos n) = n
to_count (negsuc n) = 0

abbrev pub empty_queue : {Float : Type 0} → Config Float → Queue Tables
empty_queue cfg = new_queue (to_count cfg.jobs.max_attempts) cfg.jobs.poll_interval

pub record App : Type 0 where
  pub queue : Queue Tables
  pub bus : Events.Bus Program Todos.Todo
  pub todos_service : TodosService.Service Program
  pub reports_service : ReportsService.Service Program
  pub auth_service : AuthService.Service Program

-- The part of New behind the opening of the database. Enqueue reads only the number of attempts of
-- the queue, which registering a handler does not change.
unfoldable pub new : {Float : Type 0} → Config Float → Environment → App
unfolding todo_store reports_store todo_summary_adapter queue_enqueuer generate_report auth_store
    audit_subscriber new_queue register
new cfg env =
    let empty : Queue Tables = empty_queue cfg in
    let bus =
      Events.subscribe Todos.event_todo_created (audit_subscriber env empty) Events.new_bus in
    let todos_service =
      TodosService.new_service (todo_store env.todos_db) (some bus) cfg.auth.disabled in
    let reports_service =
      ReportsService.new_service (reports_store env.reports_db) (todo_summary_adapter todos_service)
        (queue_enqueuer env empty) cfg.auth.disabled cfg.reports.processing_lease
        cfg.reports.reconcile_after in
    record {
      queue =
          register job_generate (generate_report env reports_service)
            (register audit_job audit_created empty);
      bus = bus;
      todos_service = todos_service;
      reports_service = reports_service;
      auth_service = AuthService.new_service (auth_store env.auth_db) cfg.auth;
    }
