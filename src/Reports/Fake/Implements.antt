-- ===== src/Reports/Fake/Implements.antt =====
-- The in-memory store of internal/reports/fake_store.go under the port as Contract tells it.
use base_template_server_go.Base.{
  Bool, Bool-cases, Option, Option-cases, String, Time, arith, eq_iff, false, if◌then◌else◌, inl,
  inr, ltb, nat_eq, none, refl, select, some, string_eq, subst, true, ◌&&◌, ◌<◌, ◌==◌, ◌∙◌, ◌≡◌,
}
use base_template_server_go.Errors.{no_rows, sentinel, text}
use base_template_server_go.Op.{err, ok}
use base_template_server_go.Reports.Domain.{Report, Uuid}
use base_template_server_go.Reports.Contract.{
  Claimable, Claimed, Contract, Distinct, Exactly, Expired, Failed, Finished, Found, Outcome,
  Returned, Running, Starts,
}
use base_template_server_go.Reports.Fake.Laws.{find-assign, find-keyed, rows}
use base_template_server_go.Reports.Fake.Keys.{assign-Distinct, select-Distinct, select_exact}
use base_template_server_go.Reports.Fake.{
  FakeStore, assign, claimed, failed, find, finished, is_eligible, is_stale, or_no_rows, or_now,
  returned, store, update_if,
}

-- An update whose test decides `Fits` and whose change does what `Becomes` says.
module _ (Fits : Report → Type 0) (Becomes : Report → Report → Type 0) (test : Report → Bool)
    (change : Report → Report) (sound : (r : Report) → test r ≡ true → Fits r)
    (complete : (r : Report) → test r ≡ false → ¬ Fits r)
    (does : (r : Report) → Becomes r (change r))
    (keeps : (r : Report) → (change r).report_id ≡ r.report_id) where
  update_missing :
      (id : Uuid) (f : FakeStore)
      → find id f ≡ none
      → Outcome Fits Becomes id (rows f) (rows f) (err (sentinel no_rows))
  update_missing id f e = (refl, λ r h fits. absurd (cc (e, h)), λ i. refl)

  update_found :
      (id : Uuid) (f : FakeStore) (r : Report)
      → find id f ≡ some r
      → Fits r
      → Outcome Fits Becomes id (rows f) (rows (assign (change r) f)) (ok (change r))
  update_found id f r e fits =
      let same : (change r).report_id ≡ id = keeps r ∙ find-keyed id f e in
      (
        r,
        e,
        fits,
        does r,
        λ i.
            subst
              (λ n. find i (assign (change r) f) ≡ (if n == i then some (change r) else rows f i))
              same (find-assign (change r) f i),
      )

  update_unfit :
      (id : Uuid) (f : FakeStore) (r : Report)
      → find id f ≡ some r
      → ¬ Fits r
      → Outcome Fits Becomes id (rows f) (rows f) (err (sentinel no_rows))
  update_unfit id f r e unfit = (refl, λ k h fits. unfit (subst Fits (cc (e, h)) fits), λ i. refl)

  update-Outcome :
      (id : Uuid) (f : FakeStore)
      → Distinct f
      → let (res, g) = update_if test change (find id f) f in
        Outcome Fits Becomes id (rows f) (rows g) res × Distinct g
  unfolding update_if
  update-Outcome id f d = elim (Option-cases (find id f)) [
    | inl e ↦ rw e (update_missing id f e, d)
    | inr (r, e) ↦ elim (Bool-cases (test r)) [
      | inl fits ↦
          rw (e, fits) (update_found id f r e (sound r fits), assign-Distinct (change r) f d)
      | inr unfit ↦ rw (e, unfit) (update_unfit id f r e (complete r unfit), d)
    ]
  ]

-- `started_at` of a claimed report.
starts : (now : Time) (before : Option Time) → Starts now before (or_now before now)
starts now none = inl (refl, refl)
starts now (some t) = inr (t, refl, refl)

and_split : (a b : Bool) → (a && b) ≡ true → (a ≡ true) × (b ≡ true)
and_split a b h = ground (arith, h)

stale_sound : (lease : Option Time) (t : Time) → is_stale lease t ≡ true → Expired lease t
stale_sound none t h = inl refl
stale_sound (some s) t h = inr (s, refl, ground (arith, h))

eligible_sound : (r : Report) (t : Time) → is_eligible r t ≡ true → Claimable t r
unfolding is_eligible
eligible_sound r t h = elim (Bool-cases (r.status == "pending")) [
  | inl e ↦ inl ((eq_iff r.status "pending").0 e)
  | inr e ↦
      let (running, stale) = and_split _ _ (rw e at h) in
      inr ((eq_iff r.status "processing").0 running, stale_sound r.processing_started_at t stale)
]

eligible_complete : (r : Report) (t : Time) → is_eligible r t ≡ false → ¬ Claimable t r
unfolding is_eligible
eligible_complete r t h (inl e) = absurd (cc (rw e at h))
eligible_complete r t h (inr (e, inl n)) = absurd (cc (rw (e, n) at h))
eligible_complete r t h (inr (e, inr (s, k, l))) = absurd (ground (arith, rw (e, k) at h, l))

claims : (now : Time) (r : Report) → Claimed now r (claimed r now)
unfolding claimed
claims now r = record {
  kept = record { report_id = refl; owner_user_id = refl; type = refl; created_at = refl };
  status = refl;
  updated_at = refl;
  lease = refl;
  started_at = starts now r.started_at;
  completed_at = refl;
  result = refl;
  failure_code = refl;
  failure_reason = refl;
}

returns : (at : Time) (r : Report) → Returned at r (returned r at)
unfolding returned
returns at r = record {
  kept = record { report_id = refl; owner_user_id = refl; type = refl; created_at = refl };
  status = refl;
  updated_at = refl;
  lease = refl;
  started_at = refl;
  completed_at = refl;
  result = refl;
  failure_code = refl;
  failure_reason = refl;
}

finishes : (text : String) (at : Time) (r : Report) → Finished text at r (finished r text at)
unfolding finished
finishes text at r = record {
  kept = record { report_id = refl; owner_user_id = refl; type = refl; created_at = refl };
  status = refl;
  updated_at = refl;
  lease = refl;
  started_at = refl;
  completed_at = refl;
  result = refl;
  failure_code = refl;
  failure_reason = refl;
}

fails :
    (code reason : String) (at : Time) (r : Report)
    → Failed code reason at r (failed r code reason at)
unfolding failed
fails code reason at r = record {
  kept = record { report_id = refl; owner_user_id = refl; type = refl; created_at = refl };
  status = refl;
  updated_at = refl;
  lease = refl;
  started_at = refl;
  completed_at = refl;
  result = refl;
  failure_code = refl;
  failure_reason = refl;
}

-- The three updates of a report that is being processed.
running-Outcome :
    (Becomes : Report → Report → Type 0) (change : Report → Report)
    (does : (r : Report) → Becomes r (change r))
    (keeps : (r : Report) → (change r).report_id ≡ r.report_id) (id : Uuid) (f : FakeStore)
    → Distinct f
    → let (res, g) = update_if (λ r. r.status == "processing") change (find id f) f in
      Outcome Running Becomes id (rows f) (rows g) res × Distinct g
running-Outcome Becomes change does keeps =
    update-Outcome Running Becomes (λ r. r.status == "processing") change
      (λ r. (eq_iff r.status "processing").0)
      (λ r h e. absurd (cc (h, (eq_iff r.status "processing").1 e))) does keeps

get-Found : (o : Option Report) → Found o (or_no_rows o)
unfolding or_no_rows
get-Found none = (refl, refl)
get-Found (some r) = refl

-- A filter whose test decides `Fits` gives exactly the rows that fit.
select-Exactly :
    (Fits : Report → Type 0) (test : Report → Bool)
    → ((r : Report) → test r ≡ true → Fits r)
    → ((r : Report) → Fits r → test r ≡ true)
    → (f : FakeStore) → Distinct f
    → Exactly Fits (rows f) (ok (select test f))
select-Exactly Fits test sound complete f d = (
  select-Distinct test f d,
  λ r. (
    λ m. let (e, h) = (select_exact test f d r).0 m in (e, sound r h),
    λ (e, h). (select_exact test f d r).1 (e, complete r h),
  ),
)

waits_sound :
    (t : Time) (r : Report)
    → (r.status == "pending" && ltb r.updated_at t) ≡ true
    → (r.status ≡ "pending") × (r.updated_at < t)
waits_sound t r h =
    let (pending, old) = and_split _ _ h in
    ((eq_iff r.status "pending").0 pending, ground (arith, old))

waits_complete :
    (t : Time) (r : Report)
    → (r.status ≡ "pending") × (r.updated_at < t)
    → (r.status == "pending" && ltb r.updated_at t) ≡ true
waits_complete t r (e, l) = rw ((eq_iff r.status "pending").1 e) ground (arith, l)

-- In each state in which no two reports share an id, FakeStore keeps every promise of the port.
-- Create stores the report as it is given. Get gives the row of the id, or sql.ErrNoRows if there is
-- none. A claim applies to a pending report, or to one in processing whose lease is missing or older
-- than the limit, and takes a new lease; retry, completion and failure apply to a report in
-- processing, and give the lease back. Each sets its fields, keeps the others and every other row, and
-- answers the row that it leaves; a row that is missing or does not fit is sql.ErrNoRows and nothing
-- changes. The two lists have each row that fits exactly once, and no other. Ids stay unique.
pub store-Contract : (f : FakeStore) → Distinct f → Contract store rows Distinct f
unfolding store
store-Contract f d = record {
  create = λ r. (refl, λ i. find-assign r f i, assign-Distinct r f d);
  get = λ id. (get-Found (find id f), refl);
  list_owner = λ owner. (
    select-Exactly _ _ (λ r. (eq_iff r.owner_user_id owner).0)
        (λ r. (eq_iff r.owner_user_id owner).1) f d,
    refl,
  );
  claim = λ id now t.
      update-Outcome _ (Claimed now) (λ r. is_eligible r t) (λ r. claimed r now)
        (λ r. eligible_sound r t) (λ r. eligible_complete r t) (claims now)
        (λ r. (claims now r).kept.report_id) id f d;
  retry = λ id at.
      running-Outcome (Returned at) (λ r. returned r at) (returns at)
        (λ r. (returns at r).kept.report_id) id f d;
  complete = λ id text at.
      running-Outcome (Finished text at) (λ r. finished r text at) (finishes text at)
        (λ r. (finishes text at r).kept.report_id) id f d;
  fail = λ id code reason at.
      running-Outcome (Failed code reason at) (λ r. failed r code reason at) (fails code reason at)
        (λ r. (fails code reason at r).kept.report_id) id f d;
  list_pending = λ t. (select-Exactly _ _ (waits_sound t) (waits_complete t) f d, refl);
}
