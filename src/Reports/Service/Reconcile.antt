-- ===== src/Reports/Service/Reconcile.antt =====
-- ReconcilePending: every listed report gets an attempt to enqueue it.
use base_template_server_go.Base.{
  All, List, Time, [], ap, go_back, map, refl, subst, sym, true, ◌++◌, ◌∙◌, ◌∷◌, ◌≡◌,
}
use base_template_server_go.Op.{Op, Result, attempt-ok, err, fail, ignore, ok, pure, settle, ◌>>◌}
use base_template_server_go.Reports.Domain.{GenerateReportJob, Report, job_generate}
use base_template_server_go.Reports.Spec.{Lists, Rows, StoreLaws, is_pending_before}
use base_template_server_go.Reports.Service.{Service, enqueue_all, reconcile_pending}
use mathlib.Core.List.{append_assoc, append-nil}

-- A log of the reports.generate calls of the enqueuer, kept whether a call returns or fails.
pub record Logged {S : Type 0} (s : Service S) (sent : S → List GenerateReportJob) : Type 0 where
  pub enqueue_logged :
      (job : GenerateReportJob) (x : S)
      → sent (s.enqueuer.enqueue job_generate job x).1 ≡ sent x ++ job ∷ []
  pub list_silent : (t : Time) (x : S) → sent (s.store.list_pending_older_than t x).1 ≡ sent x

abbrev pub job_of : Report → GenerateReportJob
job_of r = record { report_id = r.report_id }

module _ {S : Type 0} (s : Service S) (sent : S → List GenerateReportJob) (lg : Logged s sent) where
  after_ignored :
      (r : Report) (k : Op S (Unit {0})) (x : S)
      → (ignore (s.enqueuer.enqueue job_generate (record { report_id = r.report_id })) >> k) x
        ≡ k (s.enqueuer.enqueue job_generate (record { report_id = r.report_id }) x).1
  after_ignored r k x =
      go (s.enqueuer.enqueue job_generate (record { report_id = r.report_id }) x).0
    where
      go :
          (res : Result (Unit {0})) {y : S}
          → settle
              (settle res (λ _. pure tt) (λ _. pure tt) y).0
              fail
              (λ _. k)
              (settle {S = S} {B = Unit {0}} res (λ _. pure tt) (λ _. pure tt) y).1
            ≡ k y
      go (ok u) = refl
      go (err e) = refl

  enqueue_all-sent :
      (l : List Report) (x : S)
      → ((enqueue_all s l x).0 ≡ ok tt) × (sent (enqueue_all s l x).1 ≡ sent x ++ map job_of l)
  unfolding enqueue_all
  enqueue_all-sent [] x = (refl, sym (append-nil (sent x)))
  enqueue_all-sent (r ∷ rs) x =
      let y = (s.enqueuer.enqueue job_generate (record { report_id = r.report_id }) x).1 in
      let (done, later) = enqueue_all-sent rs y in
      let step = after_ignored r (enqueue_all s rs) x in
      (
        ap (λ p. p.0) step ∙ done,
        ap (λ p. sent p.1) step
            ∙ later
            ∙ ap (λ l. l ++ map job_of rs) (lg.enqueue_logged _ x)
            ∙ append_assoc (sent x) (job_of r ∷ []) (map job_of rs),
      )

  -- When the store lists `l`, ReconcilePending returns no error and attempts one enqueue for each
  -- report of `l`, in its order, whichever of the attempts fail; each is pending and older than
  -- the limit.
  pub reconcile_pending-sent :
      (rows : S → Rows) (laws : StoreLaws s.store rows) (now : Time) (l : List Report) (x : S)
      → (s.store.list_pending_older_than (go_back now s.reconcile_after) x).0 ≡ ok l
      → ((reconcile_pending s now x).0 ≡ ok tt)
        × (sent (reconcile_pending s now x).1 ≡ sent x ++ map job_of l)
        × All (λ r. is_pending_before (go_back now s.reconcile_after) r ≡ true) l
  unfolding reconcile_pending
  reconcile_pending-sent rows laws now l x h =
      let t = go_back now s.reconcile_after in
      let y = (s.store.list_pending_older_than t x).1 in
      let step = attempt-ok (s.store.list_pending_older_than t) fail (enqueue_all s) x l h in
      let (done, log) = enqueue_all-sent l y in
      (
        ap (λ p. p.0) step ∙ done,
        ap (λ p. sent p.1) step ∙ log ∙ ap (λ k. k ++ map job_of l) (lg.list_silent t x),
        subst (Lists (is_pending_before t)) h (laws.list_pending t x).0,
      )
