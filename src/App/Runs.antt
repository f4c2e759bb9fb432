-- ===== src/App/Runs.antt =====
-- A run of the program in two steps: a user orders a report, a worker takes up the job.

use base_template_server_go.App.Tests.{config, env, free, honest, idle, request, row}
use base_template_server_go.Base.{
  All, Bool-cases, List, [], arith, inl, inr, nat_eq, none, refl, some, string_eq, suc, ℕ, ◌+◌,
  ◌==◌, ◌∷◌, ◌≡◌, ◌≢◌, ◌≤◌,
}
use base_template_server_go.App.Journey.{todo_summary_order}
use base_template_server_go.Sql.{select_one}
use base_template_server_go.Reports.Postgres.{ReportsReport, map_report}
use base_template_server_go.Authn.{background}
use base_template_server_go.Jobs.{Job, no_faults, process_one}
use base_template_server_go.Reports.Domain.{Report, Uuid}
use base_template_server_go.Reports.Lifecycle.{AllValid, IsCompleted, IsTerminal, IsValid}
use base_template_server_go.App.{Environment, Program, new}
use base_template_server_go.App.Stores.{report_rows}
use base_template_server_go.App.Steps.{
  Call, IsAllowed, Reach, after_call, called, create_report, onward, start, worked,
}
use base_template_server_go.App.Safety.{IsSafe, program-IsSafe}

abbrev total : List Job → ℕ
total [] = 0
total (j ∷ js) = j.id + total js

above_total : (n : ℕ) (js : List Job) → total js ≤ n → All (λ k. k.id ≢ suc n) js
above_total n [] h = tt
above_total n (j ∷ js) h =
    ((λ (e : j.id ≡ suc n). absurd (omega arith)), above_total n js (omega arith))

abbrev drawn : Environment
drawn = record env { new_job_id = λ w. suc (total w.jobs) }

drawn-IsAllowed : IsAllowed drawn
drawn-IsAllowed = record {
  honest = honest;
  fresh = λ w. above_total (total w.jobs) w.jobs (omega arith);
}

abbrev order_call : Call
order_call = create_report request todo_summary_order 7 100

abbrev done_row : ReportsReport
done_row = record row {
  report_id = 8;
  status = "completed";
  started_at = some 100;
  completed_at = some 110;
  result = some "Total todos: 0";
}

abbrev begun : Program
begun = record idle { app = record idle.app { reports = done_row ∷ [] } }

is_new : report_rows begun 7 ≡ none
unfolding select_one
is_new = refl

abbrev ordered : Program
ordered = after_call config drawn order_call begun

abbrev served : Program
served = (process_one (new config drawn).queue background no_faults 250 free 300 ordered).1

run : Reach config begun served
run =
    onward (onward start (called drawn drawn-IsAllowed order_call is_new))
      (worked drawn drawn-IsAllowed background no_faults 250 free 300)

finished_row : IsCompleted (map_report done_row)
unfolding map_report
finished_row = record {
  status = refl;
  no_lease = refl;
  started = refl;
  end = refl;
  no_code = refl;
  no_reason = refl;
}

begun-IsValid : (id : Uuid) → AllValid (report_rows begun id)
unfolding select_one
begun-IsValid id = elim (Bool-cases (8 == id)) [
  | inl same ↦ rw same (IsValid.completed finished_row)
  | inr other ↦ rw other tt
]

begun-IsSafe : IsSafe begun
begun-IsSafe = record { valid = begun-IsValid; sound = (tt, tt) }

program-IsSafe_example :
    IsSafe served
    × ((id : Uuid) (r : Report)
        → report_rows begun id ≡ some r
        → IsTerminal r
        → report_rows served id ≡ some r)
program-IsSafe_example = program-IsSafe config run begun-IsSafe
