-- ===== src/Reports/Service/Evolution.antt =====
-- Every operation of the service moves each row along its life, whatever the calls of the store
-- answer, failures included.
use base_template_server_go.Base.{
  List, Option, String, Time, [], eq_iff, nat_eq, none, not, refl, some, string_eq, true, ◌==◌, ◌∷◌,
  ◌≡◌,
}
use base_template_server_go.Op.{fail, guard, ignore, map_err}
use base_template_server_go.Authn.{Context, Principal}
use base_template_server_go.Moves.{
  Moves, Moves-attempt, Moves-fail, Moves-pure, guard-eq-ok, move-attempt, move-lift, moves_rules,
}
use base_template_server_go.Reports.Domain.{
  CreateRequest, GenerateReportJob, Report, Uuid, job_generate,
}
use base_template_server_go.Reports.Store.Evolution.{
  Evolves, Evolves-order, Same-Life, Updates-Life, claim-Moves, complete-Moves, fail-Moves,
  get-Moves, list_owner-Moves, list_pending-Moves, retry-Moves,
}
use base_template_server_go.Reports.Spec.{Rows, Wired}
use base_template_server_go.Reports.Lifecycle.{Step}
use base_template_server_go.Reports.Service.{
  Service, claim_and_run, create_report, enqueue_all, generate, get_report, handle_retryable,
  list_reports, new_report, principal, reconcile_pending, run_claimed, supported_type,
}

module _ {S : Type 0} (s : Service S) (rows : S → Rows) (w : Wired s rows) where
  summary-Moves : (ctx : Context) → Moves (Evolves rows) (s.summaries.summary ctx)
  summary-Moves ctx = record { at = λ x. Same-Life (w.summary_quiet ctx x) }

  enqueue-Moves :
      (name : String) (job : GenerateReportJob) → Moves (Evolves rows) (s.enqueuer.enqueue name job)
  enqueue-Moves name job = record { at = λ x. Same-Life (w.enqueue_quiet name job x) }

  -- Generate, on every path and whatever fails, moves each row along its life.
  pub generate-Moves :
      (ctx : Context) (id : Uuid) (now at : Time) → Moves (Evolves rows) (generate s ctx id now at)
  unfolding generate claim_and_run run_claimed handle_retryable
  generate-Moves ctx id now at =
      search
        (
          moves_rules,
          Evolves-order rows,
          get-Moves s.store rows w.laws,
          claim-Moves s.store rows w.laws,
          retry-Moves s.store rows w.laws,
          complete-Moves s.store rows w.laws,
          fail-Moves s.store rows w.laws,
          summary-Moves,
        )
        depth 12

  enqueue_all-Moves : (l : List Report) → Moves (Evolves rows) (enqueue_all s l)
  unfolding enqueue_all
  enqueue_all-Moves [] = Moves-pure (Evolves-order rows) tt
  enqueue_all-Moves (r ∷ rs) =
      let o = Evolves-order rows in
      Moves-attempt o
        (ignore (s.enqueuer.enqueue job_generate (record { report_id = r.report_id }))) fail
        (λ _. enqueue_all s rs) (search (moves_rules, o, enqueue-Moves) depth 6)
        (λ e. Moves-fail o e) (λ _. enqueue_all-Moves rs)

  pub reconcile-Moves : (now : Time) → Moves (Evolves rows) (reconcile_pending s now)
  unfolding reconcile_pending
  reconcile-Moves now =
      search
        (moves_rules, Evolves-order rows, list_pending-Moves s.store rows w.laws, enqueue_all-Moves)
        depth 8

  pub get-report-Moves :
      (parse : String → Option Uuid) (ctx : Context) (id : String)
      → Moves (Evolves rows) (get_report s parse ctx id)
  unfolding get_report
  get-report-Moves parse ctx id =
      search (moves_rules, Evolves-order rows, get-Moves s.store rows w.laws) depth 10

  pub list_reports-Moves : (ctx : Context) → Moves (Evolves rows) (list_reports s ctx)
  unfolding list_reports
  list_reports-Moves ctx =
      search (moves_rules, Evolves-order rows, list_owner-Moves s.store rows w.laws) depth 8

  new_report-Evolves :
      (p : Principal) (req : CreateRequest) (id : Uuid) (now : Time) (x : S)
      → rows x id ≡ none
      → supported_type req.type ≡ true
      → Evolves rows x (s.store.create_report (new_report p req id now) x).1
  unfolding new_report supported_type
  new_report-Evolves p req id now x fresh known =
      let r = new_report p req id now in
      Updates-Life (rows x) (rows (s.store.create_report r x).1) id (some r)
        (s.store.create_report r x).0 (w.laws.create r x fresh)
        (λ q e. (
          cc e,
          rw (fresh, ← e)
              (Step.create r (record {
                status = refl;
                type = (eq_iff _ _).0 known;
                started_at = refl;
                completed_at = refl;
                processing_started_at = refl;
                failure_code = refl;
                failure_reason = refl;
                result = refl;
              })),
        ))

  -- CreateReport under an id that no row has yet.
  pub create-Evolves :
      (ctx : Context) (req : CreateRequest) (id : Uuid) (now : Time) (x : S)
      → rows x id ≡ none
      → Evolves rows x (create_report s ctx req id now x).1
  unfolding create_report
  create-Evolves ctx req id now x fresh =
      let o = Evolves-order rows in
      move-lift o (principal s ctx) _ x λ p _.
        move-lift o (guard (not (req.type == "")) _) _ x λ _ _.
          move-lift o (guard (supported_type req.type) _) _ x λ _ known.
            move-attempt o (map_err _ (s.store.create_report (new_report p req id now))) _ _ x
              (new_report-Evolves p req id now x fresh (guard-eq-ok _ _ known))
              (λ e. Moves-fail o e) (λ created. search (moves_rules, o, enqueue-Moves) depth 8)
