-- ===== src/Reports/Service/Outcome/Marks.antt =====
-- The answers of a store that fails only with `sql.ErrNoRows`, and the marks that end a run.
use base_template_server_go.Base.{
  Bool-cases, Option, String, Time, ap, arith, eq_iff, false, if◌then◌else◌, inl, inr, nat_eq, none,
  refl, some, string_eq, subst, true, ◌==◌, ◌∙◌, ◌≡◌,
}
use base_template_server_go.Errors.{GoError, is, make_retryable, no_rows}
use base_template_server_go.Op.{Op, Result, attempt-err, attempt-ok, err, ok}
use base_template_server_go.Authn.{Context}
use base_template_server_go.Reports.Domain.{
  Report, TodoSummary, Uuid, failure_retry_exhausted, result_text, status_processing,
}
use base_template_server_go.Reports.Fake.{failed, finished, returned}
use base_template_server_go.Reports.Spec.{
  Reads, Reliable, Rows, Same, Updates, Wired, is_processing, put, when,
}
use base_template_server_go.Reports.Service.{
  Service, handle_retryable, is_last_attempt, run_claimed, supported_type,
}
use base_template_server_go.Reports.Service.Outcome.{Leaves, ending, settled}

-- An update that applies, in a store that answers.
pub updated :
    (before after : Rows) (new : Report) (res : Result Report)
    → Updates before after (some new) res
    → ((e : GoError) → res ≡ err e → is e no_rows ≡ true)
    → (res ≡ ok new) × ((id : Uuid) → after id ≡ put before new id)
updated before after new (ok r) u h =
    let same : r ≡ new = cc u.0 in (ap ok same, λ id. rw (← same) (u.1 id))
updated before after new (err e) u h = absurd (cc (u.1 (h e refl)))

-- An update that does not apply.
pub refused :
    (before after : Rows) (res : Result Report)
    → Updates before after none res
    → ((e : GoError) → res ≡ err e → is e no_rows ≡ true)
    → (e : GoError) × (res ≡ err e) × (is e no_rows ≡ true) × Same before after
refused before after (ok r) u h = absurd (cc u.0)
refused before after (err e) u h = (e, refl, h e refl, u.0)

pub found :
    (row : Option Report) (res : Result Report) (r : Report)
    → Reads row res
    → ((e : GoError) → res ≡ err e → is e no_rows ≡ true)
    → row ≡ some r
    → res ≡ ok r
found row (ok q) r g h e = cc (g, e)
found row (err x) r g h e = absurd (cc (g (h x refl), e))

pub missed :
    (row : Option Report) (res : Result Report)
    → Reads row res
    → ((e : GoError) → res ≡ err e → is e no_rows ≡ true)
    → row ≡ none
    → (e : GoError) × (res ≡ err e) × (is e no_rows ≡ true)
missed row (ok q) g h e = absurd (cc (g, e))
missed row (err x) g h e = (x, refl, h x refl)

-- A run that goes on from a state whose other rows are the same.
pub onward :
    {S : Type 0} (rows : S → Rows) (id : Uuid) (z y : S) (o : Option Report × Result (Unit {0}))
    (p p' : Result (Unit {0}) × S)
    → p ≡ p'
    → ((j : Uuid) → (id == j) ≡ false → rows y j ≡ rows z j)
    → Leaves rows (rows y) id o p'
    → Leaves rows (rows z) id o p
onward rows id z y (row, res) p p' e quiet (got, left) = (
  ap (λ t. t.0) e ∙ got,
  λ j. ap (λ t. rows t.1 j) e ∙ left j ∙ (elim (Bool-cases (id == j)) [
    | inl here ↦ rw here refl
    | inr there ↦ rw there (quiet j there)
  ]),
)

module _ {S : Type 0} (s : Service S) (rows : S → Rows) (w : Wired s rows)
    (rel : Reliable s.store) where
  -- Each of the three marks on a processing row.
  pub marked :
      (change : Report → Report) (m : Op S Report) (id : Uuid) (q : Report) (z : S)
      → Updates (rows z) (rows (m z).1) (when is_processing change (rows z id)) (m z).0
      → ((e : GoError) → (m z).0 ≡ err e → is e no_rows ≡ true)
      → rows z id ≡ some q
      → q.status ≡ status_processing
      → (change q).report_id ≡ id
      → ((m z).0 ≡ ok (change q))
        × ((j : Uuid) → rows (m z).1 j ≡ (if id == j then some (change q) else rows z j))
  marked change m id q z u h e p k =
      let (got, left) =
        updated (rows z) (rows (m z).1) (change q) (m z).0
          (subst (λ (o : Option Report). Updates (rows z) (rows (m z).1) o (m z).0)
            (ap (when is_processing change) e
              ∙ ground (arith, (eq_iff q.status status_processing).1 p))
            u)
          h in
      (got, λ j. rw (← k) (left j))

  module _ (ctx : Context) (id : Uuid) (at : Time) (q : Report) (k : q.report_id ≡ id)
      (p : q.status ≡ status_processing) where
    handled-last :
        (cause : GoError) (z : S)
        → rows z id ≡ some q
        → is_last_attempt ctx.attempt_info ≡ true
        → Leaves rows
            (rows z)
            id
            (
              some (failed q failure_retry_exhausted "report generation failed after retries" at),
              ok tt,
            )
            (handle_retryable s ctx id cause at z)
    unfolding handle_retryable failed
    handled-last cause z e last =
        let reason : String = "report generation failed after retries" in
        let (got, left) =
          marked (λ r. failed r failure_retry_exhausted reason at)
            (s.store.mark_failed id failure_retry_exhausted reason at) id q z
            (w.laws.fail id _ _ at z) (rel.fail id _ _ at z) e p k in
        rw (last, handle_retryable) (rw got (refl, left))

    handled-more :
        (cause : GoError) (z : S)
        → rows z id ≡ some q
        → is_last_attempt ctx.attempt_info ≡ false
        → Leaves rows
            (rows z)
            id
            (some (returned q at), err (make_retryable cause))
            (handle_retryable s ctx id cause at z)
    unfolding handle_retryable returned
    handled-more cause z e more =
        let (got, left) =
          marked (λ r. returned r at) (s.store.mark_pending_retry id at) id q z
            (w.laws.retry id at z) (rel.retry id at z) e p k in
        rw (more, handle_retryable) (rw got (refl, left))

    pub handled :
        (cause : GoError) (z : S)
        → rows z id ≡ some q
        → Leaves rows
            (rows z)
            id
            (settled q (ending (is_last_attempt ctx.attempt_info) (err cause) at q))
            (handle_retryable s ctx id cause at z)
    handled cause z e = elim (Bool-cases (is_last_attempt ctx.attempt_info)) [
      | inl last ↦ rw last (handled-last cause z e last)
      | inr more ↦ rw more (handled-more cause z e more)
    ]

    -- The rest of a run that has claimed the row.
    pub ran :
        (answer : Result TodoSummary) (r : Report) (z : S)
        → (s.summaries.summary ctx z).0 ≡ answer
        → rows z id ≡ some q
        → supported_type r.type ≡ true
        → Leaves rows
            (rows z)
            id
            (settled q (ending (is_last_attempt ctx.attempt_info) answer at q))
            (run_claimed s ctx id r at z)
    unfolding run_claimed finished
    ran (ok summary) r z answers e known =
        let y = (s.summaries.summary ctx z).1 in
        let quiet : Same (rows z) (rows y) = w.summary_quiet ctx z in
        let (got, left) =
          marked (λ u. finished u (result_text summary) at)
            (s.store.mark_completed id (result_text summary) at) id q y (w.laws.complete id _ at y)
            (rel.complete id _ at y) (quiet id ∙ e) p k in
        onward rows id z y _ _ _
          (rw known (
            attempt-ok (s.summaries.summary ctx) _ _ z summary answers
            ∙ attempt-ok (s.store.mark_completed id (result_text summary) at) _ _ y _ got))
          (λ j _. quiet j) (refl, left)
    ran (err cause) r z answers e known =
        let y = (s.summaries.summary ctx z).1 in
        let quiet : Same (rows z) (rows y) = w.summary_quiet ctx z in
        onward rows id z y _ _ _
          (rw known (attempt-err (s.summaries.summary ctx) _ _ z cause answers)) (λ j _. quiet j)
          (handled cause y (quiet id ∙ e))
