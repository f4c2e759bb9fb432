-- ===== src/Reports/Service/Outcome/Claims.antt =====
-- Runs that have read an eligible row, and claim it.
use base_template_server_go.Base.{
  Bool-cases, Option, Time, ap, false, go_back, inl, inr, nat_eq, nat_eq_refl, refl, some,
  string_eq, subst, true, ◌==◌, ◌∙◌, ◌≡◌,
}
use base_template_server_go.Op.{Result, attempt-ok, ok}
use base_template_server_go.Authn.{Context}
use base_template_server_go.Reports.Domain.{
  Report, TodoSummary, Uuid, failure_unsupported_type, safe_failure_message, status_processing,
}
use base_template_server_go.Reports.Fake.{claimed, failed, is_eligible}
use base_template_server_go.Reports.Spec.{Reliable, Rows, Updates, Wired, next_claim}
use base_template_server_go.Reports.Service.{
  Service, claim_and_run, is_last_attempt, run_claimed, supported_type,
}
use base_template_server_go.Reports.Service.Outcome.{Leaves, outcome}
use base_template_server_go.Reports.Service.Outcome.Marks.{marked, onward, ran, updated}

pub claimed_fields :
    (r : Report) (now : Time)
    → ((claimed r now).report_id ≡ r.report_id)
      × ((claimed r now).status ≡ status_processing)
      × ((claimed r now).type ≡ r.type)
unfolding claimed
claimed_fields r now = (refl, refl, refl)

-- The state behind the claim of Generate.
abbrev pub taken : {S : Type 0} → Service S → Uuid → Time → S → S
taken s id now z = (s.store.claim_execution id now (go_back now s.processing_lease) z).1

module _ {S : Type 0} (s : Service S) (rows : S → Rows) (w : Wired s rows)
    (rel : Reliable s.store) where
  -- A claimed row of a type that is not supported.
  unsupported :
      (ctx : Context) (id : Uuid) (at : Time) (r q : Report) (z : S)
      → q.report_id ≡ id
      → q.status ≡ status_processing
      → rows z id ≡ some q
      → supported_type r.type ≡ false
      → Leaves rows
          (rows z)
          id
          (some (failed q failure_unsupported_type "unsupported report type" at), ok tt)
          (run_claimed s ctx id r at z)
  unfolding run_claimed failed safe_failure_message
  unsupported ctx id at r q z k p e unknown =
      let (got, left) =
        marked s rows w rel (λ u. failed u failure_unsupported_type "unsupported report type" at)
          (s.store.mark_failed id failure_unsupported_type "unsupported report type" at) id q z
          (w.laws.fail id _ _ at z) (rel.fail id _ _ at z) e p k in
      rw (unknown, run_claimed) (rw got (refl, left))

  -- The part of Generate behind the first read, on an eligible row.
  pub claimed_run :
      (ctx : Context) (id : Uuid) (now at : Time) (answer : Result TodoSummary) (r : Report) (z : S)
      → (s.summaries.summary ctx (taken s id now z)).0 ≡ answer
      → rows z id ≡ some r
      → is_eligible r (go_back now s.processing_lease) ≡ true
      → Leaves rows
          (rows z)
          id
          (outcome
            (is_last_attempt ctx.attempt_info)
            answer
            now
            (go_back now s.processing_lease)
            at
            (some r))
          (claim_and_run s ctx id r now at z)
  unfolding claim_and_run
  claimed_run ctx id now at answer r z answers e fits =
      let t = go_back now s.processing_lease in
      let y = (s.store.claim_execution id now t z).1 in
      let k : (claimed r now).report_id ≡ id = (claimed_fields r now).0 ∙ w.laws.keyed z id r e in
      let (got, left) =
        updated (rows z) (rows y) (claimed r now) (s.store.claim_execution id now t z).0
          (subst
            (λ (o : Option Report).
              Updates (rows z) (rows y) o (s.store.claim_execution id now t z).0)
            (ap (next_claim now t) e ∙ rw fits refl) (w.laws.claim id now t z))
          (rel.claim id now t z) in
      let here : rows y id ≡ some (claimed r now) = left id ∙ rw (k, nat_eq_refl id) refl in
      let others = λ (j : Uuid) (n : (id == j) ≡ false). left j ∙ rw (k, n) refl in
      let go : claim_and_run s ctx id r now at z ≡ run_claimed s ctx id r at y =
        attempt-ok (s.store.claim_execution id now t) _ _ z (claimed r now) got in
      elim (Bool-cases (supported_type r.type)) [
        | inl known ↦
            rw (fits, known)
              (onward rows id z y _ _ _ go others (
                ran s rows w rel ctx id at (claimed r now) k (claimed_fields r now).1 answer r y
                  answers here known))
        | inr unknown ↦
            rw (fits, unknown)
              (onward rows id z y _ _ _ go others
                (unsupported ctx id at r (claimed r now) y k (claimed_fields r now).1 here unknown))
      ]
