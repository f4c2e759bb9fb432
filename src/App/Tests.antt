-- ===== src/App/Tests.antt =====
-- A program with one job, and the theorems at it.
use base_template_server_go.Reports.Service as ReportsService
use base_template_server_go.Jobs.Runs.{behind_claim}
use base_template_server_go.App.Journey.{job_row, report_made, todo_summary_order, with_report}
use base_template_server_go.Base.{
  Bool, [], arith, false, if◌then◌else◌, nat_eq, none, pos, refl, some, string_eq, true, ℕ, ◌==◌,
  ◌∷◌, ◌≡◌,
}
use base_template_server_go.Errors.{foreign}
use base_template_server_go.Op.{ok}
use base_template_server_go.Authn.{
  Context, Principal, background, from_context, require_authenticated,
}
use base_template_server_go.Config.{Config}
use base_template_server_go.Sql.{select_one}
use base_template_server_go.Jobs.{
  Job, is_due, locked, no_faults, pick, process_one, succeeded, update,
}
use base_template_server_go.Reports.Domain.{Uuid, result_text}
use base_template_server_go.Reports.Fake.{claimed, finished}
use base_template_server_go.Reports.Postgres.{ReportsReport, map_report}
use base_template_server_go.Reports.Postgres.Laws.{Honest}
use base_template_server_go.App.{Environment, Program, new}
use base_template_server_go.App.Stores.{IsUp, counts, report_rows}
use base_template_server_go.App.Delivery.{report_delivered}

abbrev pub config : Config ℕ
config = record {
  app_env = "dev";
  http = record {
    port = "8080";
    read_timeout = pos 1;
    write_timeout = pos 1;
    shutdown_timeout = pos 1;
    trusted_proxies = [];
  };
  database = record {
    host = "db";
    port = pos 5432;
    user = "u";
    password = "p";
    db_name = "n";
    ssl_mode = "";
    max_open_conns = pos 1;
    max_idle_conns = pos 1;
    conn_max_lifetime = pos 1;
    migrations_dir = "";
  };
  logging_level = "INFO";
  metrics = record { enabled = false; basic_auth_user = ""; basic_auth_pass = ""; public = false };
  auth = record {
    disabled = false;
    session_cookie = "s";
    session_ttl = pos 100;
    csrf_cookie_name = "c";
    token_ttl = pos 100;
    bcrypt_cost = pos 10;
  };
  allowed_origins = [];
  rate_limit = record { requests = 100; burst = pos 1; use_memory = true; postgres_store = false };
  jobs = record {
    enabled = true;
    poll_interval = pos 1;
    max_attempts = pos 5;
    embed_in_server = true;
  };
  reports = record {
    processing_lease = pos 60;
    reconcile_after = pos 60;
    reconcile_interval = pos 30;
  };
  body_limit = "1M";
}

abbrev pub env : Environment
env = record {
  todos_db = record { fails = λ q t. none; duplicate_key = foreign "duplicate key" };
  auth_db = record { fails = λ q t. none; violation = foreign "constraint" };
  reports_db = record { fails = λ q t. none; duplicate_key = foreign "duplicate key" };
  json = record {
    marshal_todo = λ t. ok "{}";
    marshal_report_job = λ j. ok "7";
    unmarshal_report_job = λ s. if s == "7" then some (record { report_id = 7 }) else none;
  };
  new_job_id = λ w. 1;
  insert_fails = λ w. none;
  clock = λ w. 200;
  later = λ w. 300;
}

abbrev up : IsUp env
up = ((λ q t. refl), (λ q t. refl))

pub honest : Honest env.reports_db
honest = (refl, λ q t e h. absurd (cc h))

abbrev pub row : ReportsReport
row = record {
  report_id = 7;
  owner_user_id = "ann";
  report_type = "todo-summary";
  status = "pending";
  created_at = 100;
  updated_at = 100;
  started_at = none;
  completed_at = none;
  failure_reason = none;
  result = none;
  processing_started_at = none;
  failure_code = none;
}

abbrev job : Job
job = record {
  id = 1;
  type = "reports.generate";
  payload = "7";
  run_at = 10;
  attempts = 0;
  max_attempts = 5;
  locked_until = none;
  completed_at = none;
  last_error = none;
}

abbrev program : Program
program = record {
  jobs = job ∷ [];
  processed = [];
  app = record {
    todos =
        record { todo_id = 2; created_at = 1; updated_at = 1; label = "milk"; completed = true }
        ∷ [];
    reports = row ∷ [];
    auth = record { users = []; sessions = []; api_tokens = [] };
  };
}

abbrev pub free : ℕ → Bool
free id = false

at_start :
    (pick 20 free program.jobs ≡ some job)
    × (report_rows program 7 ≡ some (map_report row))
    × ((map_report row).status ≡ "pending")
    × ((map_report row).type ≡ "todo-summary")
unfolding pick is_due select_one map_report
at_start = (refl, refl, refl, refl)

report_delivered_example :
    let (res, z) = process_one (new config env).queue background no_faults 20 free 30 program in
    (res ≡ ok tt)
    × (z.jobs ≡ update 1 (succeeded 30) (update 1 (locked 20) program.jobs))
    × ((i : Uuid)
        → report_rows z i ≡ (
            if 7 == i
            then some (
                finished
                  (claimed (map_report row) 200)
                  (result_text (counts program.app.todos))
                  300)
            else report_rows program i))
report_delivered_example =
    report_delivered config env up honest background 20 free 30 program job
      (record { report_id = 7 }) (map_report row) at_start.0 refl refl at_start.1 at_start.2
      at_start.3

written : result_text (counts program.app.todos) ≡ "Total todos: 1\nCompleted: 1\nOutstanding: 0"
unfolding result_text
written = refl

abbrev ann : Principal
ann = record { user_id = "ann"; roles = "user" ∷ []; auth_method = "cookie" }

abbrev pub request : Context
request = record background { principal = some ann }

abbrev pub idle : Program
idle = record program { jobs = []; app = record program.app { reports = [] } }

let_in :
    (ReportsService.principal (new config env).reports_service request ≡ ok ann)
    × (report_rows idle 7 ≡ none)
unfolding new ReportsService.new_service ReportsService.principal from_context require_authenticated
    select_one
let_in = (refl, refl)

report_made_example :
    let made =
      ReportsService.create_report
        (new config env).reports_service
        request
        todo_summary_order
        7
        100
        idle in
    let start =
      behind_claim 250
        (job_row config env "7"
          (with_report config env (ReportsService.new_report ann todo_summary_order 7 100) idle))
        made.1 in
    let (res, z) = process_one (new config env).queue background no_faults 250 free 300 made.1 in
    (made.0 ≡ ok (ReportsService.new_report ann todo_summary_order 7 100))
    × (res ≡ ok tt)
    × (report_rows z 7
        ≡ some (
            finished
              (claimed (ReportsService.new_report ann todo_summary_order 7 100) (env.clock start))
              (result_text (counts idle.app.todos))
              (env.later start)))
report_made_example =
    report_made config env up honest request ann 7 100 idle "7" background 250 300 free let_in.0
      refl let_in.1 refl refl refl (omega arith) refl
