-- ===== src/Reports/Tests.antt =====
-- Runs of the reports service over the fakes, and the theorems at them.
use base_template_server_go.Reports.Fake.Laws.{rows}
use base_template_server_go.Reports.Fake.Implements.{store-Contract}
use base_template_server_go.Reports.Contract.{Contract, Distinct}
use base_template_server_go.Reports.Fake
use base_template_server_go.Reports.Fake.{
  FakeEnqueuer, FakeStore, FakeSummary, assign, claimed, failed, fake_enqueue, find, finished,
  is_eligible, returned, store,
}
use base_template_server_go.Base.{
  All, List, [], arith, false, go_back, inl, minute, none, pos, refl, some, true, ◌++◌, ◌+◌, ◌∷◌,
  ◌≡◌, ◌≢◌,
}
use base_template_server_go.Errors.{foreign, make_retryable, retryable}
use base_template_server_go.Op.{err, fail, ok}
use base_template_server_go.Authn.{Context, Principal, background}
use base_template_server_go.Reports.Domain.{
  CreateRequest, GenerateReportJob, Report, Uuid, result_text,
}
use base_template_server_go.Reports.Fake.Bench.{
  Bench, bench-Reliable, bench-Wired, bench_rows, bench_service,
}
use base_template_server_go.Reports.Lifecycle.{AllValid, IsTerminal}
use base_template_server_go.Reports.Spec.{Same, Wired, is_pending_before}
use base_template_server_go.Reports.Service.{
  Service, claim_and_run, create_report, generate, get_report, handle_retryable, list_reports,
  new_service, principal, reconcile_pending, run_claimed, supported_type,
}
use base_template_server_go.Reports.Service.History.{
  Runs, Runs-IsValid, creating, generating, reconciling, start,
}
use base_template_server_go.Reports.Service.Outcome.{Leaves, outcome}
use base_template_server_go.Reports.Service.Outcome.Runs.{generate-outcome}
use base_template_server_go.Reports.Service.Access.{get_report_owner}
use base_template_server_go.Reports.Service.Lease.{generate_stuck, lease_respected}
use base_template_server_go.Reports.Service.Reconcile.{Logged, reconcile_pending-sent}

abbrev three_todos : FakeSummary
three_todos = record { value = record { total = 3; completed = 1; outstanding = 2 }; err = none }

abbrev blip : FakeSummary
blip = record {
  value = record { total = 0; completed = 0; outstanding = 0 };
  err = some (foreign "db blip");
}

abbrev ann : Context
ann = record background {
  principal = some (record { user_id = "ann"; roles = "user" ∷ []; auth_method = "cookie" });
}

abbrev last_try : Context
last_try = record background { attempt_info = some (record { attempt = 5; max_attempts = 5 }) }

abbrev order : CreateRequest
order = record { type = "todo-summary" }

abbrev no_calls : FakeEnqueuer
no_calls = record { err = none; calls = 0; last_job = ""; last_pay = none; payloads = [] }

abbrev empty_bench : Bench
empty_bench = record { store = []; queue = no_calls }

abbrev svc : Service Bench
svc = bench_service three_todos false

abbrev bad_svc : Service Bench
bad_svc = bench_service blip false

abbrev pending_report : Report
pending_report = record {
  report_id = 7;
  owner_user_id = "ann";
  type = "todo-summary";
  status = "pending";
  created_at = 100;
  updated_at = 100;
  started_at = none;
  completed_at = none;
  processing_started_at = none;
  failure_reason = "";
  failure_code = "";
  result = "";
}

abbrev with_pending : Bench
with_pending = record empty_bench { store = pending_report ∷ [] }

tests : Unit {0}
unfolding bench_service generate claim_and_run run_claimed handle_retryable create_report get_report
    Fake.store Fake.find assign claimed finished returned failed new_service make_retryable
    is_eligible fake_enqueue result_text
tests = tt

created_pending : (create_report svc ann order 7 100 empty_bench).0 ≡ ok pending_report
unfolding tests
created_pending = refl

generated :
    bench_rows (generate svc background 7 200 300 with_pending).1 7
    ≡ some
        (finished (claimed pending_report 200) "Total todos: 3\nCompleted: 1\nOutstanding: 2" 300)
unfolding tests
generated = refl

handed_back : generate bad_svc background 7 200 300 with_pending ≡ (
  err (retryable (foreign "db blip")),
  record empty_bench { store = returned (claimed pending_report 200) 300 ∷ [] },
)
unfolding tests
handed_back = refl

given_up :
    bench_rows (generate bad_svc last_try 7 200 300 with_pending).1 7
    ≡ some (
        failed
          (claimed pending_report 200)
          "RETRY_EXHAUSTED"
          "report generation failed after retries"
          300)
unfolding tests
given_up = refl

read_back : (get_report svc (λ _. some 7) ann "seven" with_pending).0 ≡ ok pending_report
unfolding tests
read_back = refl

-- A history: a report is created, generated, and listed for reconciliation.
abbrev made : Bench
made = (create_report svc ann order 7 100 empty_bench).1

abbrev done : Bench
done = (generate svc background 7 200 300 made).1

history : Runs svc bench_rows empty_bench done
unfolding tests
history = generating (creating start ann order 7 100 refl) background 7 200 300

later :
    Runs svc bench_rows done
      (reconcile_pending svc 900 (generate svc background 7 400 500 done).1).1
later = reconciling (generating start background 7 400 500) 900

done_row :
    bench_rows done 7
    ≡ some
        (finished (claimed pending_report 200) "Total todos: 3\nCompleted: 1\nOutstanding: 2" 300)
unfolding tests
done_row = refl

done_completed :
    IsTerminal
      (finished (claimed pending_report 200) "Total todos: 3\nCompleted: 1\nOutstanding: 2" 300)
unfolding finished
done_completed = inl refl

no_rows_yet : (id : Uuid) → AllValid (bench_rows empty_bench id)
unfolding Fake.find
no_rows_yet id = tt

Runs-IsValid_example : AllValid (bench_rows done 7)
Runs-IsValid_example =
    Runs-IsValid svc bench_rows (bench-Wired three_todos false) history no_rows_yet 7

summary_answers : (b : Bench) → (bad_svc.summaries.summary last_try b).0 ≡ err (foreign "db blip")
unfolding bench_service
summary_answers b = refl

generate-outcome_example :
    Leaves bench_rows
      (bench_rows with_pending)
      7
      (outcome true
        (err (foreign "db blip"))
        200
        (go_back 200 bad_svc.processing_lease)
        300
        (bench_rows with_pending 7))
      (generate bad_svc last_try 7 200 300 with_pending)
generate-outcome_example =
    generate-outcome bad_svc bench_rows (bench-Wired blip false) (bench-Reliable blip false)
      last_try 7 200 300 (err (foreign "db blip")) with_pending (summary_answers _)

get_report_owner_example :
    (p : Principal) × (id : Uuid) × (principal svc ann ≡ ok p)
    × (some 7 ≡ some id)
    × (bench_rows with_pending id ≡ some pending_report)
    × ("ann" ≡ p.user_id)
    × (svc.auth_disabled ≡ false → pending_report.owner_user_id ≢ "")
get_report_owner_example =
    get_report_owner svc bench_rows (bench-Wired three_todos false) (λ _. some 7) ann "seven"
      with_pending pending_report read_back

listed : (list_reports svc ann with_pending).0 ≡ ok (pending_report ∷ [])
unfolding tests list_reports
listed = refl

-- A report that another worker holds since instant 200, with a lease of a minute.
abbrev held : Bench
held = record empty_bench { store = claimed pending_report 200 ∷ [] }

held_row : bench_rows held 7 ≡ some (claimed pending_report 200)
unfolding Fake.find claimed
held_row = refl

lease_is : svc.processing_lease ≡ pos minute
unfolding bench_service
lease_is = refl

held_fields :
    ((claimed pending_report 200).status ≡ "processing")
    × ((claimed pending_report 200).processing_started_at ≡ some 200)
unfolding claimed
held_fields = (refl, refl)

lease_respected_example :
    ((generate svc background 7 900 950 held).0 ≡ ok tt)
    × Same (bench_rows held) (bench_rows (generate svc background 7 900 950 held).1)
lease_respected_example =
    lease_respected svc bench_rows (bench-Wired three_todos false)
      (bench-Reliable three_todos false) background 7 900 950 200 minute
      (claimed pending_report 200) held lease_is held_row held_fields.0 held_fields.1 (omega arith)

-- A store that loses every call of MarkFailed.
abbrev lossy : Service Bench
lossy = record bad_svc {
  store = record bad_svc.store {
    mark_failed = λ id code reason at. fail (foreign "connection lost");
  };
}

lossy-Wired : Wired lossy bench_rows
lossy-Wired =
    let l = (bench-Wired blip false).laws in
    record {
      laws = record {
        keyed = l.keyed;
        create = l.create;
        get = l.get;
        list_owner = l.list_owner;
        claim = l.claim;
        retry = l.retry;
        complete = l.complete;
        list_pending = l.list_pending;
        fail = λ id code reason at b. ((λ j. refl), λ h. cc h);
      };
      summary_quiet = (bench-Wired blip false).summary_quiet;
      enqueue_quiet = (bench-Wired blip false).enqueue_quiet;
    }

lossy_steps :
    (is_eligible pending_report (go_back 200 lossy.processing_lease) ≡ true)
    × (supported_type "todo-summary" ≡ true)
    × ((lossy.store.get_report_by_id 7 with_pending).0 ≡ ok pending_report)
    × ((lossy.store.claim_execution 7 200
          (go_back 200 lossy.processing_lease)
          (lossy.store.get_report_by_id 7 with_pending).1).0
        ≡ ok (claimed pending_report 200))
    × (bench_rows with_pending 7 ≡ some pending_report)
unfolding tests supported_type
lossy_steps = (refl, refl, refl, refl, refl)

generate_stuck_example :
    ((generate lossy last_try 7 200 300 with_pending).0 ≡ ok tt)
    × (bench_rows (generate lossy last_try 7 200 300 with_pending).1 7
        ≡ some (claimed pending_report 200))
generate_stuck_example =
    generate_stuck lossy bench_rows lossy-Wired last_try 7 200 300 pending_report with_pending
      (foreign "db blip") (foreign "connection lost") lossy_steps.4 lossy_steps.0 lossy_steps.1 refl
      lossy_steps.2 lossy_steps.3 summary_answers (λ y code reason. refl)

-- The log of a FakeEnqueuer that answers an error to every call.
abbrev down : Bench
down = record with_pending { queue = record no_calls { err = some (foreign "queue down") } }

abbrev payloads_of : Bench → List GenerateReportJob
payloads_of b = b.queue.payloads

down_Logged : Logged svc payloads_of
unfolding bench_service fake_enqueue Fake.store
down_Logged = record { enqueue_logged = λ job b. refl; list_silent = λ t b. refl }

down_lists :
    (svc.store.list_pending_older_than (go_back (minute + 200) svc.reconcile_after) down).0
    ≡ ok (pending_report ∷ [])
unfolding tests
down_lists = refl

reconcile_pending-sent_example :
    ((reconcile_pending svc (minute + 200) down).0 ≡ ok tt)
    × (payloads_of (reconcile_pending svc (minute + 200) down).1
        ≡ payloads_of down ++ record { report_id = 7 } ∷ [])
    × All
        (λ r. is_pending_before (go_back (minute + 200) svc.reconcile_after) r ≡ true)
        (pending_report ∷ [])
reconcile_pending-sent_example =
    reconcile_pending-sent svc payloads_of down_Logged bench_rows
      (bench-Wired three_todos false).laws (minute + 200) (pending_report ∷ []) down down_lists

-- A store with a report that waits, and one whose lease began at 150.
abbrev running_report : Report
running_report = record pending_report {
  report_id = 8;
  status = "processing";
  updated_at = 150;
  started_at = some 150;
  processing_started_at = some 150;
}

abbrev two_reports : FakeStore
two_reports = pending_report ∷ running_report ∷ []

two_reports-Distinct : Distinct two_reports
two_reports-Distinct = (((ground arith), tt), (tt, tt))

store-Contract_example : Contract store rows Distinct two_reports
store-Contract_example = store-Contract two_reports two_reports-Distinct
