-- ===== src/Reports/Service/Lease.antt =====
-- Leases: what a second worker may do, and how a report can stay in processing.
use base_template_server_go.Base.{
  Option, String, Time, ap, arith, false, go_back, inl, inr, nat_eq_refl, pos, refl, some, true, ℕ,
  ◌+◌, ◌∙◌, ◌≡◌, ◌≤◌,
}
use base_template_server_go.Errors.{GoError}
use base_template_server_go.Op.{Result, attempt-err, attempt-ok, err, ok}
use base_template_server_go.Authn.{Context}
use base_template_server_go.Reports.Domain.{
  Report, Uuid, failure_retry_exhausted, safe_failure_message, status_processing,
}
use base_template_server_go.Reports.Fake.{claimed, is_eligible}
use base_template_server_go.Reports.Spec.{Reliable, Rows, Same, Updates, Wired, put}
use base_template_server_go.Reports.Service.{
  Service, claim_and_run, generate, handle_retryable, is_last_attempt, run_claimed, supported_type,
}
use base_template_server_go.Reports.Lifecycle.Laws.{is_eligible-cases}
use base_template_server_go.Reports.Service.Outcome.Claims.{claimed_fields}
use base_template_server_go.Reports.Service.Outcome.Marks.{found}
use base_template_server_go.Reports.Service.Outcome.Runs.{ends}

fresh_not_eligible :
    (r : Report) (now t0 n : ℕ)
    → r.status ≡ status_processing
    → r.processing_started_at ≡ some t0
    → now ≤ t0 + n
    → is_eligible r (go_back now (pos n)) ≡ false
unfolding is_eligible
fresh_not_eligible r now t0 n p l fresh = rw (p, l) (ground arith)

-- An update that failed, and one that applied.
kept :
    (before after : Rows) (new : Option Report) (res : Result Report) {e : GoError}
    → Updates before after new res
    → res ≡ err e
    → Same before after
kept before after new (ok r) u h = absurd (cc h)
kept before after new (err x) u h = u.0

placed :
    (before after : Rows) (new : Option Report) (res : Result Report) (r : Report)
    → Updates before after new res
    → res ≡ ok r
    → (id : Uuid) → after id ≡ put before r id
placed before after new (ok q) r u h id = let same : q ≡ r = cc h in rw (← same) (u.1 id)
placed before after new (err x) r u h id = absurd (cc h)

module _ {S : Type 0} (s : Service S) (rows : S → Rows) (w : Wired s rows) where
  -- While a worker holds a lease taken at `t0`, and until it is older than the lease time, a
  -- second Generate of the report does nothing and returns no error.
  pub lease_respected :
      (rel : Reliable s.store) (ctx : Context) (id : Uuid) (now at t0 n : ℕ) (r : Report) (x : S)
      → s.processing_lease ≡ pos n
      → rows x id ≡ some r
      → r.status ≡ status_processing
      → r.processing_started_at ≡ some t0
      → now ≤ t0 + n
      → ((generate s ctx id now at x).0 ≡ ok tt)
        × Same (rows x) (rows (generate s ctx id now at x).1)
  lease_respected rel ctx id now at t0 n r x hl e p l fresh =
      let got =
        found (rows x id) (s.store.get_report_by_id id x).0 r (w.laws.get id x).0 (rel.get id x)
          e in
      let (z, over, same) =
        ends s rows w rel ctx id now at r x e got
          (rw hl (fresh_not_eligible r now t0 n p l fresh)) in
      (ap (λ t. t.0) over, λ j. ap (λ t. rows t.1 j) over ∙ same j)

  -- The dropped result of the mark on the last attempt.
  dropped :
      (ctx : Context) (id : Uuid) (cause lost : GoError) (at : Time) (u : S)
      → is_last_attempt ctx.attempt_info ≡ true
      → ((code reason : String) → (s.store.mark_failed id code reason at u).0 ≡ err lost)
      → handle_retryable s ctx id cause at u ≡ (
        ok tt,
        (s.store.mark_failed id failure_retry_exhausted
            (safe_failure_message failure_retry_exhausted "")
            at
            u).1,
      )
  unfolding handle_retryable
  dropped ctx id cause lost at u last loses =
      rw (last, handle_retryable)
        (rw (loses failure_retry_exhausted (safe_failure_message failure_retry_exhausted "")) refl)

  -- On the last attempt, when the summary fails and the store then loses the call that marks the
  -- report as failed, Generate still returns no error, and the report stays in processing.
  pub generate_stuck :
      (ctx : Context) (id : Uuid) (now at : Time) (r : Report) (x : S) (cause lost : GoError)
      → rows x id ≡ some r
      → is_eligible r (go_back now s.processing_lease) ≡ true
      → supported_type r.type ≡ true
      → is_last_attempt ctx.attempt_info ≡ true
      → (s.store.get_report_by_id id x).0 ≡ ok r
      → (s.store.claim_execution id now
          (go_back now s.processing_lease)
          (s.store.get_report_by_id id x).1).0
        ≡ ok (claimed r now)
      → ((y : S) → (s.summaries.summary ctx y).0 ≡ err cause)
      → ((y : S) (code reason : String) → (s.store.mark_failed id code reason at y).0 ≡ err lost)
      → ((generate s ctx id now at x).0 ≡ ok tt)
        × (rows (generate s ctx id now at x).1 id ≡ some (claimed r now))
  unfolding generate claim_and_run run_claimed handle_retryable
  generate_stuck ctx id now at r x cause lost e fits known last got took answers loses =
      let t = go_back now s.processing_lease in
      let y = (s.store.get_report_by_id id x).1 in
      let z = (s.store.claim_execution id now t y).1 in
      let u = (s.summaries.summary ctx z).1 in
      let reason = safe_failure_message failure_retry_exhausted "" in
      let v = (s.store.mark_failed id failure_retry_exhausted reason at u).1 in
      let read : generate s ctx id now at x ≡ claim_and_run s ctx id r now at y =
        attempt-ok (s.store.get_report_by_id id) _ _ x r got
        ∙ elim (is_eligible-cases r t fits) [ inl p ↦ rw p refl | inr p ↦ rw p refl ] in
      let run : claim_and_run s ctx id r now at y ≡ run_claimed s ctx id r at z =
        attempt-ok (s.store.claim_execution id now t) _ _ y (claimed r now) took in
      let asked : run_claimed s ctx id r at z ≡ handle_retryable s ctx id cause at u =
        rw known (attempt-err (s.summaries.summary ctx) _ _ z cause (answers z)) in
      let all = read ∙ run ∙ asked ∙ dropped ctx id cause lost at u last (loses u) in
      let k = (claimed_fields r now).0 ∙ w.laws.keyed x id r e in
      (
        ap (λ q. q.0) all,
        ap (λ q. rows q.1 id) all
            ∙ kept _ _ _ _ (w.laws.fail id failure_retry_exhausted reason at u)
                (loses u failure_retry_exhausted reason) id
            ∙ w.summary_quiet ctx z id
            ∙ placed _ _ _ _ (claimed r now) (w.laws.claim id now t y) took id
            ∙ rw (k, nat_eq_refl id) refl,
      )
