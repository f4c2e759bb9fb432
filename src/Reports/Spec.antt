-- ===== src/Reports/Spec.antt =====
-- What a store of reports promises: the rows behind its state, and what each operation of the port
-- in internal/reports/store.go does to them. Any call may also fail and then changes nothing.
use base_template_server_go.Base.{
  All, Bool, List, Option, String, Time, if◌then◌else◌, ltb, nat_eq, none, some, string_eq, true,
  ◌&&◌, ◌==◌, ◌≡◌,
}
use base_template_server_go.Errors.{GoError, is, no_rows}
use base_template_server_go.Op.{Result, err, ok}
use base_template_server_go.Reports.Domain.{
  GenerateReportJob, Report, Uuid, status_pending, status_processing,
}
use base_template_server_go.Reports.Store.{Store}
use base_template_server_go.Reports.Fake.{claimed, failed, finished, is_eligible, returned}
use base_template_server_go.Authn.{Context}
use base_template_server_go.Reports.Service.{Service}

abbrev pub Rows : Type 0
Rows = Uuid → Option Report

abbrev pub put : Rows → Report → Rows
put rows r id = if r.report_id == id then some r else rows id

abbrev pub Same : Rows → Rows → Type 0
Same before after = (id : Uuid) → after id ≡ before id

-- The row that an update leaves, if it applies.
abbrev pub when : (Report → Bool) → (Report → Report) → Option Report → Option Report
when test change none = none
when test change (some r) = if test r then some (change r) else none

-- The outcome of an update that should leave the row `next`.
abbrev pub Updates : Rows → Rows → Option Report → Result Report → Type 0
Updates before after next (ok r) = (next ≡ some r) × ((id : Uuid) → after id ≡ put before r id)
Updates before after next (err e) = Same before after × (is e no_rows ≡ true → next ≡ none)

-- The outcome of a read of one row.
abbrev pub Reads : Option Report → Result Report → Type 0
Reads row (ok r) = row ≡ some r
Reads row (err e) = is e no_rows ≡ true → row ≡ none

-- Every listed report passes the test.
abbrev pub Lists : (Report → Bool) → Result (List Report) → Type 0
Lists test (ok l) = All (λ r. test r ≡ true) l
Lists test (err e) = Unit

abbrev pub next_claim : Time → Time → Option Report → Option Report
next_claim now stale_before = when (λ r. is_eligible r stale_before) (λ r. claimed r now)

abbrev pub is_processing : Report → Bool
is_processing r = r.status == status_processing

abbrev pub is_pending_before : Time → Report → Bool
is_pending_before t r = r.status == status_pending && ltb r.updated_at t

module _ {S : Type 0} (store : Store S) (rows : S → Rows) where
  pub record StoreLaws : Type 0 where
    pub keyed : (s : S) (id : Uuid) (r : Report) → rows s id ≡ some r → r.report_id ≡ id
    pub create :
        (r : Report) (s : S)
        → rows s r.report_id ≡ none
        → let (res, s') = store.create_report r s in Updates (rows s) (rows s') (some r) res
    pub get :
        (id : Uuid) (s : S)
        → let (res, s') = store.get_report_by_id id s in
          Reads (rows s id) res × Same (rows s) (rows s')
    pub list_owner :
        (owner : String) (s : S)
        → let (res, s') = store.list_reports_by_owner owner s in
          Lists (λ r. r.owner_user_id == owner) res × Same (rows s) (rows s')
    pub claim :
        (id : Uuid) (now stale_before : Time) (s : S)
        → let (res, s') = store.claim_execution id now stale_before s in
          Updates (rows s) (rows s') (next_claim now stale_before (rows s id)) res
    pub retry :
        (id : Uuid) (at : Time) (s : S)
        → let (res, s') = store.mark_pending_retry id at s in
          Updates (rows s) (rows s') (when is_processing (λ r. returned r at) (rows s id)) res
    pub complete :
        (id : Uuid) (text : String) (at : Time) (s : S)
        → let (res, s') = store.mark_completed id text at s in
          Updates (rows s) (rows s') (when is_processing (λ r. finished r text at) (rows s id)) res
    pub fail :
        (id : Uuid) (code reason : String) (at : Time) (s : S)
        → let (res, s') = store.mark_failed id code reason at s in
          Updates
            (rows s)
            (rows s')
            (when is_processing (λ r. failed r code reason at) (rows s id))
            res
    pub list_pending :
        (t : Time) (s : S)
        → let (res, s') = store.list_pending_older_than t s in
          Lists (is_pending_before t) res × Same (rows s) (rows s')

-- The service over a store with the laws, whose two other capabilities leave the rows alone.
pub record Wired {S : Type 0} (s : Service S) (rows : S → Rows) : Type 0 where
  pub laws : StoreLaws s.store rows
  pub summary_quiet : (ctx : Context) (w : S) → Same (rows w) (rows (s.summaries.summary ctx w).1)
  pub enqueue_quiet :
      (name : String) (job : GenerateReportJob) (w : S)
      → Same (rows w) (rows (s.enqueuer.enqueue name job w).1)

-- A store whose calls fail only with `sql.ErrNoRows`: no connection is lost.
pub record Reliable {S : Type 0} (store : Store S) : Type 0 where
  pub get :
      (id : Uuid) (w : S) (e : GoError)
      → (store.get_report_by_id id w).0 ≡ err e
      → is e no_rows ≡ true
  pub claim :
      (id : Uuid) (now t : Time) (w : S) (e : GoError)
      → (store.claim_execution id now t w).0 ≡ err e
      → is e no_rows ≡ true
  pub retry :
      (id : Uuid) (at : Time) (w : S) (e : GoError)
      → (store.mark_pending_retry id at w).0 ≡ err e
      → is e no_rows ≡ true
  pub complete :
      (id : Uuid) (text : String) (at : Time) (w : S) (e : GoError)
      → (store.mark_completed id text at w).0 ≡ err e
      → is e no_rows ≡ true
  pub fail :
      (id : Uuid) (code reason : String) (at : Time) (w : S) (e : GoError)
      → (store.mark_failed id code reason at w).0 ≡ err e
      → is e no_rows ≡ true
