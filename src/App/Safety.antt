-- ===== src/App/Safety.antt =====
-- What holds in every state that the program reaches, whoever calls in whatever order and whatever
-- fails.
use base_template_server_go.Reports.Service.Evolution.{
  create-Evolves, generate-Moves, get-report-Moves, list_reports-Moves, reconcile-Moves,
}
use base_template_server_go.Reports.Spec.{Wired}
use base_template_server_go.App.Wiring.{app-Wired, enqueue_now-reports}
use base_template_server_go.Authn.{Context, with_principal}
use base_template_server_go.Jobs.{
  Faults, Handler, assign_handler, handler_of, new_queue, process_one, register,
}
use base_template_server_go.App.Steps.{
  Call, IsAllowed, NewId, Reach, Step, after_call, authenticated, called, create_report,
  create_todo, delete_todo, find_todo_by_id, get_report, list_all_todos, list_reports, onward,
  reconcile_pending, reports, start, summary, todos, update_todo, worked,
}
use base_template_server_go.Todos.{Todo, Uuid, event_todo_created}
use base_template_server_go.Reports.Domain.{Report, job_generate}
use base_template_server_go.Reports.Postgres.Laws.{table_rows}
use base_template_server_go.Reports.Lifecycle.{AllValid, IsTerminal, Life}
use base_template_server_go.Jobs.Process.{process_one-Moves}
use base_template_server_go.Base.{
  Bool, Bool-cases, Option, Option-cases, String, Time, ap, inl, inr, nat_eq, refl, some, string_eq,
  subst, sym, ℕ, ◌==◌, ◌≡◌,
}
use base_template_server_go.Op.{Op}
use base_template_server_go.Config.{Config}
use base_template_server_go.Moves.{Moves, Moves-pure, Order}
use base_template_server_go.Jobs.Attempts.{KeepsSound, Sound}
use base_template_server_go.Todos
use base_template_server_go.Todos.Service as TodosService
use base_template_server_go.Todos.Postgres as TodosTable
use base_template_server_go.Reports.Store.Evolution.{Evolves, Evolves-order, Same-Life}
use base_template_server_go.App.{
  Environment, Program, Tables, audit_created, audit_job, audit_subscriber, empty_queue,
  enqueue_now, generate_report, new, on_todos, system_principal, todo_store,
}
use base_template_server_go.App.Stores.{report_rows}
use base_template_server_go.App.Sound.{call-Sound, published, work-Sound}
use base_template_server_go.Todos.Moving.{
  StoreMoves, create_todo-Moves, delete_todo-Moves, find_todo_by_id-Moves, list_all_todos-Moves,
  summary-Moves, update_todo-Moves,
}
use base_template_server_go.Reports.Lifecycle.Laws.{Life-IsValid, Life-terminal}

abbrev Lives : Program → Program → Type 0
Lives = Evolves report_rows

same_reports : (w u : Program) → u.app.reports ≡ w.app.reports → Lives w u
same_reports w u e = Same-Life (λ id. ap (λ t. table_rows t id) e)

on_todos-Lives : {A : Type 0} (m : Op TodosTable.Table A) → Moves Lives (on_todos m)
on_todos-Lives m = record { at = λ w. same_reports w (on_todos m w).1 refl }

module _ {Float : Type 0} (cfg : Config Float) (env : Environment) (allowed : IsAllowed env) where
  wired : Wired (reports cfg env) report_rows
  wired = app-Wired cfg env allowed.honest

  order : Order Lives
  order = Evolves-order report_rows

  publish-Lives :
      (ctx : Context) (t : Todos.Todo) (x : Program)
      → Lives x (
          TodosService.publish_if
            (todos cfg env).bus
            ctx
            (record { name = Todos.event_todo_created; payload = t })
            x)
  unfolding audit_subscriber
  publish-Lives ctx t x = subst (Lives x) (sym (published cfg env allowed ctx t x)) (
      same_reports x (enqueue_now env.json.marshal_todo env (empty_queue cfg) audit_job t x).1
        ((enqueue_now-reports env.json.marshal_todo env (empty_queue cfg) audit_job t).at x))

  todos-Lives : StoreMoves Lives (todos cfg env).store
  unfolding new TodosService.new_service todo_store
  todos-Lives = record {
    create = λ arg. on_todos-Lives _;
    update = λ arg. on_todos-Lives _;
    delete = λ id. on_todos-Lives _;
    find = λ id. on_todos-Lives _;
    list = on_todos-Lives _;
    count = on_todos-Lives _;
  }

  call-Lives : (c : Call) (w : Program) → NewId c w → Lives w (after_call cfg env c w)
  call-Lives (create_report ctx req id now) w fresh =
      create-Evolves (reports cfg env) report_rows wired ctx req id now w fresh
  call-Lives (get_report parse ctx id) w n =
      (get-report-Moves (reports cfg env) report_rows wired parse ctx id).at w
  call-Lives (list_reports ctx) w n =
      (list_reports-Moves (reports cfg env) report_rows wired ctx).at w
  call-Lives (reconcile_pending now) w n =
      (reconcile-Moves (reports cfg env) report_rows wired now).at w
  call-Lives (create_todo ctx req id now) w n =
      (create_todo-Moves order (todos cfg env) todos-Lives ctx req id now (publish-Lives ctx)).at w
  call-Lives (update_todo parse ctx id req now) w n =
      (update_todo-Moves order (todos cfg env) todos-Lives parse ctx id req now).at w
  call-Lives (delete_todo parse ctx id) w n =
      (delete_todo-Moves order (todos cfg env) todos-Lives parse ctx id).at w
  call-Lives (find_todo_by_id parse ctx id) w n =
      (find_todo_by_id-Moves order (todos cfg env) todos-Lives parse ctx id).at w
  call-Lives (list_all_todos ctx) w n =
      (list_all_todos-Moves order (todos cfg env) todos-Lives ctx).at w
  call-Lives (summary ctx) w n = (summary-Moves order (todos cfg env) todos-Lives ctx).at w

  generate_report-Lives :
      (c : Context) (payload : String)
      → Moves Lives (generate_report env (reports cfg env) c payload)
  unfolding generate_report
  generate_report-Lives c payload = record {
    at = λ w. elim (Option-cases (env.json.unmarshal_report_job payload)) [
      | inl bad ↦ rw bad (order.reflexive w)
      | inr (job, e) ↦ rw e (
          (generate-Moves (reports cfg env) report_rows wired (with_principal c system_principal)
              job.report_id (env.clock w) (env.later w)).at
            w)
    ];
  }

  handlers-Lives :
      (name : String) (f : Handler Tables)
      → handler_of name (new cfg env).queue.handlers ≡ some f
      → (c : Context) (payload : String) → Moves Lives (f c payload)
  unfolding new register assign_handler handler_of new_queue
  handlers-Lives name f e c payload = elim (Bool-cases (audit_job == name)) [
    | inl audit ↦
        let same : audit_created ≡ f = cc (rw audit at e) in
        subst (λ (h : Handler Tables). Moves Lives (h c payload)) same (Moves-pure order tt)
    | inr other ↦ elim (Bool-cases (job_generate == name)) [
      | inl report ↦
          let same : generate_report env (reports cfg env) ≡ f = cc (rw (other, report) at e) in
          subst (λ (h : Handler Tables). Moves Lives (h c payload)) same
            (generate_report-Lives c payload)
      | inr unknown ↦ absurd (cc (rw (other, unknown) at e))
    ]
  ]

  work-Lives :
      (ctx : Context) (fault : Faults) (now : Time) (held : ℕ → Bool) (later : Time) (w : Program)
      → Lives w (process_one (new cfg env).queue ctx fault now held later w).1
  work-Lives ctx fault now held later w =
      (process_one-Moves order
          (λ x js ps. same_reports x (record x { jobs = js; processed = ps }) refl)
          (new cfg env).queue ctx fault now held later handlers-Lives).at
        w

pub record IsSafe (w : Program) : Type 0 where
  pub valid : (id : Uuid) → AllValid (report_rows w id)
  pub sound : Sound w.jobs

module _ {Float : Type 0} (cfg : Config Float) where
  Step-Grows : {w u : Program} → Step cfg w u → Lives w u × KeepsSound w u
  Step-Grows {w} (called env ok' c n) = (call-Lives cfg env ok' c w n, call-Sound cfg env ok' c w)
  Step-Grows {w} (authenticated t) =
      (same_reports w (record w { app = record w.app { auth = t } }) refl, λ s. s)
  Step-Grows {w} (worked env ok' ctx fault now held later) = (
    work-Lives cfg env ok' ctx fault now held later w,
    work-Sound cfg env ok' ctx fault now held later w,
  )

  Reach-Grows : {w u : Program} → Reach cfg w u → Lives w u × KeepsSound w u
  Reach-Grows {w} start = ((Evolves-order report_rows).reflexive w, λ s. s)
  Reach-Grows {w} {u} (onward {x} r s) =
      let (a, b) = Reach-Grows r in
      let (c, d) = Step-Grows s in ((Evolves-order report_rows).transitive w x u a c, λ h. d (b h))

  -- However users, workers and the ticker interleave their calls, and whichever statements fail: from
  -- a state in which the fields of every report fit its status, job ids are unique and no job has
  -- more attempts than it may, the program reaches only such states, and a report that is completed
  -- or failed keeps its row for ever. Failures must not pass for missing rows, and new ids must be
  -- new.
  pub program-IsSafe :
      {w u : Program}
      → Reach cfg w u
      → IsSafe w
      → IsSafe u
        × ((id : Uuid) (r : Report)
            → report_rows w id ≡ some r
            → IsTerminal r
            → report_rows u id ≡ some r)
  program-IsSafe {w} {u} run safe =
      let (lives, keeps) = Reach-Grows run in
      (
        record { valid = λ id. Life-IsValid (lives id) (safe.valid id); sound = keeps safe.sound },
        λ id r e t.
            Life-terminal (subst (λ (o : Option Report). Life o (report_rows u id)) e (lives id)) t,
      )
