-- ===== src/App/Sound.antt =====
-- Every call keeps the soundness of the queue: ids unique, attempts in their budgets.

use base_template_server_go.Todos.Service as TodosService
use base_template_server_go.App.Wiring.{app-AllAside}
use base_template_server_go.Todos.Moving.{
  StoreMoves, create_todo-Moves, delete_todo-Moves, find_todo_by_id-Moves, list_all_todos-Moves,
  summary-Moves, update_todo-Moves,
}
use base_template_server_go.Table.{assign, find}
use base_template_server_go.Authn.{Context}
use base_template_server_go.Todos.{Todo, Uuid, event_todo_created}
use base_template_server_go.Reports.Domain.{CreateRequest, GenerateReportJob, Report, job_generate}
use base_template_server_go.Events.{Event, deliver, handlers_of, new_bus, publish, subscribe}
use base_template_server_go.Jobs.Process.{KeepsSound-Order, process_one-Sound}
use base_template_server_go.Base.{
  All, Bool, List, Option, Option-cases, String, Time, [], arith, inl, inr, nat_eq, refl, string_eq,
  subst, sym, ℕ, ◌++◌, ◌∷◌, ◌≡◌, ◌≢◌, ◌≤◌,
}
use base_template_server_go.Op.{Op, Result, Result-cases, fail, ignore}
use base_template_server_go.Config.{Config}
use base_template_server_go.Moves.{Moves, Moves-attempt, Moves-fail, Moves-pure, moves_rules}
use base_template_server_go.Jobs.{Faults, Job, enqueue, process_one}
use base_template_server_go.Jobs.Attempts.{InBudget, KeepsSound, Keyed, Sound}
use base_template_server_go.Todos
use base_template_server_go.Todos.Postgres as TodosTable
use base_template_server_go.Reports.Service as ReportsService
use base_template_server_go.Reports.Postgres.Store as ReportsTable
use base_template_server_go.App.{
  Environment, Program, audit_job, audit_subscriber, empty_queue, enqueue_now, new, on_reports,
  on_todos, queue_enqueuer, reports_store, todo_store,
}
use base_template_server_go.App.Steps.{
  Call, IsAllowed, after_call, create_report, create_todo, delete_todo, find_todo_by_id, get_report,
  list_all_todos, list_reports, reconcile_pending, reports, summary, todos, update_todo,
}

All-append-one :
    (P : Job → Type 0) (js : List Job) (j : Job) → All P js → P j → All P (js ++ j ∷ [])
All-append-one P [] j h p = (p, tt)
All-append-one P (i ∷ js) j (q, h) p = (q, All-append-one P js j h p)

Keyed-append :
    (js : List Job) (j : Job) → Keyed js → All (λ k. k.id ≢ j.id) js → Keyed (js ++ j ∷ [])
Keyed-append [] j k f = (tt, tt)
Keyed-append (i ∷ js) j (d, k) (n, f) =
    (All-append-one (λ q. q.id ≢ i.id) js j d (λ e. n (sym e)), Keyed-append js j k f)

Sound-append :
    (js : List Job) (j : Job)
    → Sound js
    → All (λ k. k.id ≢ j.id) js
    → j.attempts ≤ j.max_attempts
    → Sound (js ++ j ∷ [])
Sound-append js j (keyed, budget) f b =
    (Keyed-append js j keyed f, All-append-one InBudget js j budget b)

on_todos-Sound : {A : Type 0} (m : Op TodosTable.Table A) → Moves KeepsSound (on_todos m)
on_todos-Sound m = record { at = λ w s. s }

on_reports-Sound : {A : Type 0} (m : Op ReportsTable.Table A) → Moves KeepsSound (on_reports m)
on_reports-Sound m = record { at = λ w s. s }

module _ {Float : Type 0} (cfg : Config Float) (env : Environment) (allowed : IsAllowed env) where
  enqueue-Sound :
      {P : Type 0} (marshal : P → Result String) (type : String) (payload : P)
      → Moves KeepsSound (enqueue_now marshal env (empty_queue cfg) type payload)
  unfolding enqueue
  enqueue-Sound marshal type payload = record {
    at = λ w s. elim (Result-cases (marshal payload)) [
      | inr (e, bad) ↦ rw bad s
      | inl (body, good) ↦ elim (Option-cases (env.insert_fails w)) [
        | inr (e, lost) ↦ rw (good, lost) s
        | inl fine ↦ rw (good, fine) (Sound-append w.jobs _ s (allowed.fresh w) (omega arith))
      ]
    ];
  }

  audit-Sound :
      (ctx : Context) (event : Event Todos.Todo)
      → Moves KeepsSound (audit_subscriber env (empty_queue cfg) ctx event)
  unfolding audit_subscriber
  audit-Sound ctx event = enqueue-Sound env.json.marshal_todo audit_job event.payload

  reports_enqueue-Sound :
      (name : String) (job : GenerateReportJob)
      → Moves KeepsSound ((new cfg env).reports_service.enqueuer.enqueue name job)
  unfolding new ReportsService.new_service queue_enqueuer
  reports_enqueue-Sound name job = enqueue-Sound env.json.marshal_report_job name job

  create-report-Sound :
      (ctx : Context) (req : CreateRequest) (id : Uuid) (now : Time)
      → Moves KeepsSound (ReportsService.create_report (reports cfg env) ctx req id now)
  unfolding new ReportsService.new_service ReportsService.create_report reports_store queue_enqueuer
  create-report-Sound ctx req id now =
      search (moves_rules, KeepsSound-Order, on_reports-Sound, enqueue-Sound) depth 14

  get-report-Sound :
      (parse : String → Option Uuid) (ctx : Context) (id : String)
      → Moves KeepsSound (ReportsService.get_report (reports cfg env) parse ctx id)
  unfolding new ReportsService.new_service ReportsService.get_report reports_store
  get-report-Sound parse ctx id = search (moves_rules, KeepsSound-Order, on_reports-Sound) depth 12

  list_reports-Sound :
      (ctx : Context) → Moves KeepsSound (ReportsService.list_reports (reports cfg env) ctx)
  unfolding new ReportsService.new_service ReportsService.list_reports reports_store
  list_reports-Sound ctx = search (moves_rules, KeepsSound-Order, on_reports-Sound) depth 12

  enqueue_all-Sound :
      (l : List Report) → Moves KeepsSound (ReportsService.enqueue_all (reports cfg env) l)
  unfolding ReportsService.enqueue_all
  enqueue_all-Sound [] = Moves-pure KeepsSound-Order tt
  enqueue_all-Sound (r ∷ rs) =
      let o = KeepsSound-Order in
      Moves-attempt o
        (ignore
          ((reports cfg env).enqueuer.enqueue job_generate (record { report_id = r.report_id })))
        fail (λ _. ReportsService.enqueue_all (reports cfg env) rs)
        (search (moves_rules, o, reports_enqueue-Sound) depth 6) (λ e. Moves-fail o e)
        (λ _. enqueue_all-Sound rs)

  list_pending-Sound :
      (t : Time) → Moves KeepsSound ((reports cfg env).store.list_pending_older_than t)
  unfolding new ReportsService.new_service reports_store
  list_pending-Sound t = on_reports-Sound _

  reconcile-Sound :
      (now : Time) → Moves KeepsSound (ReportsService.reconcile_pending (reports cfg env) now)
  unfolding ReportsService.reconcile_pending
  reconcile-Sound now =
      search (moves_rules, KeepsSound-Order, list_pending-Sound, enqueue_all-Sound) depth 8

  -- What the bus of the program does with a created todo.
  pub published :
      (ctx : Context) (t : Todos.Todo) (x : Program)
      → TodosService.publish_if
          (todos cfg env).bus
          ctx
          (record { name = Todos.event_todo_created; payload = t })
          x
        ≡ (audit_subscriber env
            (empty_queue cfg)
            ctx
            (record { name = Todos.event_todo_created; payload = t })
            x).1
  unfolding new TodosService.new_service publish deliver handlers_of subscribe new_bus find assign
  published ctx t x = refl

  publish-Sound :
      (ctx : Context) (t : Todos.Todo) (x : Program)
      → KeepsSound x (
          TodosService.publish_if
            (todos cfg env).bus
            ctx
            (record { name = Todos.event_todo_created; payload = t })
            x)
  publish-Sound ctx t x = subst (KeepsSound x) (sym (published ctx t x)) ((audit-Sound ctx _).at x)

  todos-Sound : StoreMoves KeepsSound (todos cfg env).store
  unfolding new TodosService.new_service todo_store
  todos-Sound = record {
    create = λ arg. on_todos-Sound _;
    update = λ arg. on_todos-Sound _;
    delete = λ id. on_todos-Sound _;
    find = λ id. on_todos-Sound _;
    list = on_todos-Sound _;
    count = on_todos-Sound _;
  }

  pub call-Sound : (c : Call) (w : Program) → KeepsSound w (after_call cfg env c w)
  call-Sound (create_report ctx req id now) w = (create-report-Sound ctx req id now).at w
  call-Sound (get_report parse ctx id) w = (get-report-Sound parse ctx id).at w
  call-Sound (list_reports ctx) w = (list_reports-Sound ctx).at w
  call-Sound (reconcile_pending now) w = (reconcile-Sound now).at w
  call-Sound (create_todo ctx req id now) w =
      (create_todo-Moves KeepsSound-Order (todos cfg env) todos-Sound ctx req id now
          (publish-Sound ctx)).at
        w
  call-Sound (update_todo parse ctx id req now) w =
      (update_todo-Moves KeepsSound-Order (todos cfg env) todos-Sound parse ctx id req now).at w
  call-Sound (delete_todo parse ctx id) w =
      (delete_todo-Moves KeepsSound-Order (todos cfg env) todos-Sound parse ctx id).at w
  call-Sound (find_todo_by_id parse ctx id) w =
      (find_todo_by_id-Moves KeepsSound-Order (todos cfg env) todos-Sound parse ctx id).at w
  call-Sound (list_all_todos ctx) w =
      (list_all_todos-Moves KeepsSound-Order (todos cfg env) todos-Sound ctx).at w
  call-Sound (summary ctx) w = (summary-Moves KeepsSound-Order (todos cfg env) todos-Sound ctx).at w

  pub work-Sound :
      (ctx : Context) (fault : Faults) (now : Time) (held : ℕ → Bool) (later : Time) (w : Program)
      → KeepsSound w (process_one (new cfg env).queue ctx fault now held later w).1
  work-Sound ctx fault now held later w =
      process_one-Sound (new cfg env).queue ctx fault now held later w (λ name f e c payload.
        record { at = λ x s. subst Sound (sym (app-AllAside cfg env name f e c payload x)) s })
