-- ===== src/Reports/Service/Outcome/Runs.antt =====
-- Whole runs of Generate.
use base_template_server_go.Base.{
  Bool-cases, Option, Option-cases, Time, ap, false, go_back, inl, inr, nat_eq, none, refl, some,
  string_eq, subst, true, ◌==◌, ◌||◌, ◌∙◌, ◌≡◌,
}
use base_template_server_go.Op.{Result, attempt-err, attempt-ok, ok}
use base_template_server_go.Authn.{Context}
use base_template_server_go.Reports.Domain.{
  Report, TodoSummary, Uuid, status_completed, status_failed, status_pending, status_processing,
}
use base_template_server_go.Reports.Fake.{is_eligible}
use base_template_server_go.Reports.Spec.{Reliable, Rows, Same, Updates, Wired, next_claim}
use base_template_server_go.Reports.Lifecycle.Laws.{is_eligible-cases}
use base_template_server_go.Reports.Service.{Service, claim_and_run, generate, is_last_attempt}
use base_template_server_go.Reports.Service.Outcome.{Leaves, outcome}
use base_template_server_go.Reports.Service.Outcome.Marks.{found, missed, onward, refused}
use base_template_server_go.Reports.Service.Outcome.Claims.{claimed_run, taken}

module _ {S : Type 0} (s : Service S) (rows : S → Rows) (w : Wired s rows)
    (rel : Reliable s.store) where
  -- A run that ends at once, or after a claim that is refused.
  stays :
      (id : Uuid) (x y : S) (o : Option Report) (p : Result (Unit {0}) × S)
      → rows x id ≡ o
      → Same (rows x) (rows y)
      → p ≡ (ok tt, y)
      → Leaves rows (rows x) id (o, ok tt) p
  stays id x y o p e same q = (
    ap (λ t. t.0) q,
    λ j. ap (λ t. rows t.1 j) q ∙ same j ∙ (elim (Bool-cases (id == j)) [
      | inl here ↦ rw (here, ← (nat_eq.equal_iff id j).0 here) e
      | inr there ↦ rw there refl
    ]),
  )

  -- An eligible row is pending or processing, so Generate goes on to claim it.
  goes_on :
      (ctx : Context) (id : Uuid) (now at t : Time) (r : Report) (x : S)
      → (s.store.get_report_by_id id x).0 ≡ ok r
      → is_eligible r t ≡ true
      → generate s ctx id now at x
        ≡ claim_and_run s ctx id r now at (s.store.get_report_by_id id x).1
  unfolding generate
  goes_on ctx id now at t r x got fits =
      attempt-ok (s.store.get_report_by_id id) _ _ x r got
      ∙ elim (is_eligible-cases r t fits) [ inl p ↦ rw p refl | inr p ↦ rw p refl ]

  -- A claim that finds no eligible row changes nothing, and the run ends.
  turned_away :
      (ctx : Context) (id : Uuid) (now at : Time) (r : Report) (y : S)
      → rows y id ≡ some r
      → is_eligible r (go_back now s.processing_lease) ≡ false
      → (z : S) × (claim_and_run s ctx id r now at y ≡ (ok tt, z)) × Same (rows y) (rows z)
  unfolding claim_and_run
  turned_away ctx id now at r y e unfit =
      let t = go_back now s.processing_lease in
      let z = (s.store.claim_execution id now t y).1 in
      let (x, failed', missing, same) =
        refused (rows y) (rows z) (s.store.claim_execution id now t y).0
          (subst
            (λ (o : Option Report).
              Updates (rows y) (rows z) o (s.store.claim_execution id now t y).0)
            (ap (next_claim now t) e ∙ rw unfit refl) (w.laws.claim id now t y))
          (rel.claim id now t y) in
      (z, attempt-err (s.store.claim_execution id now t) _ _ y x failed' ∙ rw missing refl, same)

  pub ends :
      (ctx : Context) (id : Uuid) (now at : Time) (r : Report) (x : S)
      → rows x id ≡ some r
      → (s.store.get_report_by_id id x).0 ≡ ok r
      → is_eligible r (go_back now s.processing_lease) ≡ false
      → (z : S) × (generate s ctx id now at x ≡ (ok tt, z)) × Same (rows x) (rows z)
  unfolding generate
  ends ctx id now at r x e got unfit =
      let y = (s.store.get_report_by_id id x).1 in
      let quiet = (w.laws.get id x).1 in
      let first = attempt-ok (s.store.get_report_by_id id) _ _ x r got in
      elim (Bool-cases (r.status == status_completed || r.status == status_failed)) [
        | inl over ↦ (y, first ∙ rw over refl, quiet)
        | inr open' ↦
            elim (Bool-cases (r.status == status_pending || r.status == status_processing)) [
              | inl active ↦
                  let (z, ran', same) = turned_away ctx id now at r y (quiet id ∙ e) unfit in
                  (z, first ∙ rw (open', active) ran', λ j. same j ∙ quiet j)
              | inr unknown ↦ (y, first ∙ rw (open', unknown) refl, quiet)
            ]
      ]

  -- Over a lawful store that answers, with a summary reader that gives `answer` behind the
  -- claim, Generate is the pure function `outcome` of the row: it returns what `outcome` returns,
  -- leaves at the id the row that `outcome` leaves, and leaves every other row as it was.
  pub generate-outcome :
      (ctx : Context) (id : Uuid) (now at : Time) (answer : Result TodoSummary) (x : S)
      → (s.summaries.summary ctx (taken s id now (s.store.get_report_by_id id x).1)).0 ≡ answer
      → Leaves rows
          (rows x)
          id
          (outcome
            (is_last_attempt ctx.attempt_info)
            answer
            now
            (go_back now s.processing_lease)
            at
            (rows x id))
          (generate s ctx id now at x)
  unfolding generate
  generate-outcome ctx id now at answer x answers = elim (Option-cases (rows x id)) [
    | inl gone ↦
        let (e, failed', missing) =
          missed (rows x id) (s.store.get_report_by_id id x).0 (w.laws.get id x).0 (rel.get id x)
            gone in
        rw gone (
          stays id x (s.store.get_report_by_id id x).1 none _ gone (w.laws.get id x).1
            (attempt-err (s.store.get_report_by_id id) _ _ x e failed' ∙ rw missing refl))
    | inr (r, e) ↦
        let got =
          found (rows x id) (s.store.get_report_by_id id x).0 r (w.laws.get id x).0 (rel.get id x)
            e in
        let quiet = (w.laws.get id x).1 in
        elim (Bool-cases (is_eligible r (go_back now s.processing_lease))) [
          | inl fits ↦ rw e (
              onward rows id x (s.store.get_report_by_id id x).1 _ _ _
                (goes_on ctx id now at _ r x got fits) (λ j _. quiet j)
                (claimed_run s rows w rel ctx id now at answer r _ answers (quiet id ∙ e) fits))
          | inr unfit ↦
              let (z, over, same) = ends ctx id now at r x e got unfit in
              rw (e, unfit) (stays id x z (some r) _ e same over)
        ]
  ]
