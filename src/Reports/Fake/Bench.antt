-- ===== src/Reports/Fake/Bench.antt =====
-- The service of the unit tests (internal/reports/service_test.go, `newSvc`): a FakeStore, a
-- FakeEnqueuer and a FakeSummary side by side.
use base_template_server_go.Base.{Bool, arith, minute, pos, refl}
use base_template_server_go.Op.{Op, zoom}
use base_template_server_go.Reports.Domain.{Enqueuer}
use base_template_server_go.Reports.Store.{Store}
use base_template_server_go.Reports.Fake.{
  FakeEnqueuer, FakeStore, FakeSummary, claim_execution, create_report, fake_enqueue,
  get_report_by_id, list_pending_older_than, list_reports_by_owner, mark_completed, mark_failed,
  mark_pending_retry, store, summary_of,
}
use base_template_server_go.Reports.Fake
use base_template_server_go.Reports.Fake.Laws.{rows, store-StoreLaws}
use base_template_server_go.Reports.Spec.{Reliable, Rows, Wired}
use base_template_server_go.Reports.Service.{Service, new_service}

pub record Bench : Type 0 where
  pub store : FakeStore
  pub queue : FakeEnqueuer

abbrev on_store : {A : Type 0} → Op FakeStore A → Op Bench A
on_store m = zoom (λ (b : Bench). b.store) (λ f b. record b { store = f }) m

unfoldable pub bench_store : Store Bench
bench_store =
    let st : Store FakeStore = Fake.store in
    record {
      create_report = λ r. on_store (st.create_report r);
      get_report_by_id = λ id. on_store (st.get_report_by_id id);
      list_reports_by_owner = λ owner. on_store (st.list_reports_by_owner owner);
      claim_execution = λ id now t. on_store (st.claim_execution id now t);
      mark_pending_retry = λ id at. on_store (st.mark_pending_retry id at);
      mark_completed = λ id text at. on_store (st.mark_completed id text at);
      mark_failed = λ id code reason at. on_store (st.mark_failed id code reason at);
      list_pending_older_than = λ t. on_store (st.list_pending_older_than t);
    }

unfoldable pub bench_enqueuer : Enqueuer Bench
bench_enqueuer = record {
  enqueue = λ name job.
      zoom (λ (b : Bench). b.queue) (λ q b. record b { queue = q }) (fake_enqueue name job);
}

-- newSvc
unfoldable pub bench_service : FakeSummary → Bool → Service Bench
unfolding bench_store bench_enqueuer summary_of new_service
bench_service sum auth_disabled =
    new_service bench_store (summary_of sum) bench_enqueuer auth_disabled (pos minute) (pos minute)

abbrev pub bench_rows : Bench → Rows
bench_rows b = rows b.store

-- The service over the fakes is wired as its clients assume.
pub bench-Wired :
    (sum : FakeSummary) (auth_disabled : Bool) → Wired (bench_service sum auth_disabled) bench_rows
unfolding bench_service
bench-Wired sum auth_disabled =
    let l = store-StoreLaws in
    record {
      laws = record {
        keyed = λ b. l.keyed b.store;
        create = λ r b. l.create r b.store;
        get = λ id b. l.get id b.store;
        list_owner = λ owner b. l.list_owner owner b.store;
        claim = λ id now t b. l.claim id now t b.store;
        retry = λ id at b. l.retry id at b.store;
        complete = λ id text at b. l.complete id text at b.store;
        fail = λ id code reason at b. l.fail id code reason at b.store;
        list_pending = λ t b. l.list_pending t b.store;
      };
      summary_quiet = λ ctx b id. refl;
      enqueue_quiet = λ name job b id. refl;
    }

pub bench-Reliable :
    (sum : FakeSummary) (auth_disabled : Bool) → Reliable (bench_service sum auth_disabled).store
unfolding bench_service Fake.store
bench-Reliable sum auth_disabled = record {
  get = λ id b e h. ground (arith, h);
  claim = λ id now t b e h. ground (arith, h);
  retry = λ id at b e h. ground (arith, h);
  complete = λ id text at b e h. ground (arith, h);
  fail = λ id code reason at b e h. ground (arith, h);
}
