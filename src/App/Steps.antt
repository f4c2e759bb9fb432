-- ===== src/App/Steps.antt =====
-- The program that New builds as a step relation: any user, worker or ticker makes the next call, and
-- any statement of the database may fail. A call runs alone.
use base_template_server_go.Reports.Postgres.Laws.{Honest}
use base_template_server_go.Base.{All, Bool, Option, String, Time, none, ℕ, ◌≡◌, ◌≢◌}
use base_template_server_go.Authn.{Context}
use base_template_server_go.Config.{Config}
use base_template_server_go.Jobs.{Faults, process_one}
use base_template_server_go.Todos
use base_template_server_go.Todos.Service as TodosService
use base_template_server_go.Auth.Postgres as AuthTable
use base_template_server_go.Reports.Domain.{CreateRequest, Uuid}
use base_template_server_go.Reports.Service as ReportsService
use base_template_server_go.App.{Environment, Program, new}
use base_template_server_go.App.Stores.{report_rows}

-- A call of one of the services of the domains.
pub data Call : Type 0 where
  create_report : (ctx : Context) → (req : CreateRequest) → (id : Uuid) → (now : Time) → Call
  get_report : (parse : String → Option Uuid) → (ctx : Context) → (id : String) → Call
  list_reports : (ctx : Context) → Call
  reconcile_pending : (now : Time) → Call
  create_todo : (ctx : Context) → (req : Todos.Params) → (id : Todos.Uuid) → (now : Time) → Call
  update_todo :
      (parse : String → Option Uuid)
      → (ctx : Context) → (id : String) → (req : Todos.Params) → (now : Time) → Call
  delete_todo : (parse : String → Option Uuid) → (ctx : Context) → (id : String) → Call
  find_todo_by_id : (parse : String → Option Uuid) → (ctx : Context) → (id : String) → Call
  list_all_todos : (ctx : Context) → Call
  summary : (ctx : Context) → Call

module _ {Float : Type 0} (cfg : Config Float) (env : Environment) where
  abbrev pub reports : ReportsService.Service Program
  reports = (new cfg env).reports_service

  abbrev pub todos : TodosService.Service Program
  todos = (new cfg env).todos_service

  abbrev pub after_call : Call → Program → Program
  after_call (create_report ctx req id now) w =
      (ReportsService.create_report reports ctx req id now w).1
  after_call (get_report parse ctx id) w = (ReportsService.get_report reports parse ctx id w).1
  after_call (list_reports ctx) w = (ReportsService.list_reports reports ctx w).1
  after_call (reconcile_pending now) w = (ReportsService.reconcile_pending reports now w).1
  after_call (create_todo ctx req id now) w = (TodosService.create_todo todos ctx req id now w).1
  after_call (update_todo parse ctx id req now) w =
      (TodosService.update_todo todos parse ctx id req now w).1
  after_call (delete_todo parse ctx id) w = (TodosService.delete_todo todos parse ctx id w).1
  after_call (find_todo_by_id parse ctx id) w =
      (TodosService.find_todo_by_id todos parse ctx id w).1
  after_call (list_all_todos ctx) w = (TodosService.list_all_todos todos ctx w).1
  after_call (summary ctx) w = (TodosService.summary todos ctx w).1

-- The id of a new report is one that no row has.
abbrev pub NewId : Call → Program → Type 0
NewId (create_report ctx req id now) w = report_rows w id ≡ none
NewId _ w = Unit

-- What is asked of the surroundings of a step: no failure of the reports' database passes for a
-- missing row, and a new job gets an id that no job has.
pub record IsAllowed (env : Environment) : Type 0 where
  pub honest : Honest env.reports_db
  pub fresh : (w : Program) → All (λ k. k.id ≢ env.new_job_id w) w.jobs

-- Each step has surroundings of its own: its readings of the clock, its new ids and its failures.
pub data Step {Float : Type 0} (cfg : Config Float) (w : Program) : Program → Type 0 where
  called :
      (env : Environment)
      → IsAllowed env
      → (c : Call) → NewId c w
      → Step cfg w (after_call cfg env c w)
  -- Any call that works on the tables of authentication.
  authenticated : (t : AuthTable.Tables) → Step cfg w (record w { app = record w.app { auth = t } })
  worked :
      (env : Environment)
      → IsAllowed env
      → (ctx : Context) → (fault : Faults) → (now : Time) → (held : ℕ → Bool) → (later : Time)
      → Step cfg w (process_one (new cfg env).queue ctx fault now held later w).1

pub data Reach {Float : Type 0} (cfg : Config Float) (w : Program) : Program → Type 0 where
  start : Reach cfg w w
  onward : {x y : Program} → Reach cfg w x → Step cfg x y → Reach cfg w y
