-- ===== src/Reports/Postgres/Port.antt =====
-- The Postgres store as a store of reports.
use base_template_server_go.Reports.Postgres.Queries.{
  Database, Statement, Table, claiming, completing, creating, failing, getting, has_id, is_running,
  listing_owner, listing_pending, retrying,
}
use base_template_server_go.Base.{
  All, Bool, Bool-cases, List, Option-cases, Time, [], ap, inl, inr, ltb, map, nat_eq, none, refl,
  select, some, string_eq, subst, sym, true, ◌&&◌, ◌++◌, ◌==◌, ◌∙◌, ◌∷◌, ◌≡◌,
}
use base_template_server_go.Base.Order.{ascending, descending, order_by, order_by-All}
use base_template_server_go.Sql.{run, select_one}
use base_template_server_go.Op.{ok}
use base_template_server_go.Reports.Domain.{Report, Uuid}
use base_template_server_go.Reports.Spec.{
  Lists, Reads, Same, StoreLaws, Updates, is_pending_before, is_processing, put,
}
use base_template_server_go.Reports.Fake.{claimed, failed, finished, is_eligible, returned}
use base_template_server_go.Reports.Postgres.{
  ReportsReport, claim_set, claim_where, completed_set, failed_set, inserted, map_report,
  map_report-inserted, pending_retry_set, statements_agree,
}
use base_template_server_go.Reports.Postgres.Store.{
  claim_execution, create_report, get_report_by_id, list_pending_older_than, list_reports_by_owner,
  mapped_all, mark_completed, mark_failed, mark_pending_retry, postgres_store,
}
use base_template_server_go.Reports.Postgres.Laws.{
  Honest, refusal, rows-append, select_one-keyed, table_rows, update-Updates,
}

claim-agrees : (r : ReportsReport) (t : Time) → claim_where r t ≡ is_eligible (map_report r) t
claim-agrees r t = (statements_agree r 0 t "" "" "").0

select-All : {A : Type 0} (test : A → Bool) (l : List A) → All (λ r. test r ≡ true) (select test l)
select-All test [] = tt
select-All test (x ∷ xs) = elim (Bool-cases (test x)) [
  | inl yes' ↦ rw yes' (yes', select-All test xs)
  | inr no' ↦ rw no' (select-All test xs)
]

map-All :
    {A B : Type 0} (f : A → B) (test : A → Bool) (test' : B → Bool) (l : List A)
    → ((a : A) → test a ≡ test' (f a))
    → All (λ a. test a ≡ true) l
    → All (λ b. test' b ≡ true) (map f l)
map-All f test test' [] e h = tt
map-All f test test' (x ∷ xs) e (p, h) = (sym (e x) ∙ p, map-All f test test' xs e h)

module _ (db : Database) (honest : Honest db) where
  new_id :
      (r : Report) (t : Table)
      → table_rows t r.report_id ≡ none
      → table_rows t (inserted r).report_id ≡ none
  unfolding inserted
  new_id r t h = h

  created :
      (r : Report) (t : Table)
      → table_rows t r.report_id ≡ none
      → Updates
          (table_rows t)
          (table_rows (create_report db r t).1)
          (some r)
          (create_report db r t).0
  unfolding create_report
  created r t fresh = elim (Option-cases (db.fails creating t)) [
    | inr (e, down) ↦ rw down (refusal t _ e (honest.1 creating t e down))
    | inl up ↦ rw up (elim (Option-cases (select_one (has_id (inserted r).report_id) t)) [
      | inr (q, e) ↦ rw e (refusal t _ db.duplicate_key honest.0)
      | inl missing ↦
          let back = map_report-inserted r in
          rw missing (
            ap some (sym back),
            λ id.
                subst (λ q. table_rows (t ++ inserted r ∷ []) id ≡ put (table_rows t) q id) refl
                  (rows-append (inserted r) t id (new_id r t fresh)),
          )
    ])
  ]

  got :
      (id : Uuid) (t : Table)
      → Reads (table_rows t id) (get_report_by_id db id t).0
        × Same (table_rows t) (table_rows (get_report_by_id db id t).1)
  unfolding get_report_by_id
  got id t = elim (Option-cases (db.fails getting t)) [
    | inr (e, down) ↦ rw down ((λ h. absurd (cc (h, honest.1 getting t e down))), λ j. refl)
    | inl up ↦ rw up (elim (Option-cases (select_one (has_id id) t)) [
      | inr (r, e) ↦ rw e (refl, λ j. refl)
      | inl missing ↦ rw missing ((λ h. refl), λ j. refl)
    ])
  ]

  listed :
      (q : Statement) (test : ReportsReport → Bool) (test' : Report → Bool)
      (first : ReportsReport → ReportsReport → Bool) (t : Table)
      → ((r : ReportsReport) → test r ≡ test' (map_report r))
      → let (res, u) =
          mapped_all
            (λ s. run (db.fails q s) (λ u. (ok (order_by first (select test u)), u)) s)
            t in
        Lists test' res × Same (table_rows t) (table_rows u)
  listed q test test' first t agree = elim (Option-cases (db.fails q t)) [
    | inr (e, down) ↦ rw down (tt, λ j. refl)
    | inl up ↦ rw up (
      map-All map_report test test' _ agree
          (order_by-All first _ (select test t) (select-All test t)),
      λ j. refl,
    )
  ]

  -- The store over the Postgres table is a store of reports: each of its operations has the law of
  -- the port, whichever statements fail, if no failure passes for a missing row.
  pub postgres_store-StoreLaws : StoreLaws (postgres_store db) table_rows
  unfolding postgres_store claim_execution mark_pending_retry mark_completed mark_failed
      list_reports_by_owner list_pending_older_than map_report claim_set pending_retry_set
      completed_set failed_set
  postgres_store-StoreLaws = record {
    keyed = λ t id r e. select_one-keyed id t e;
    create = λ r t fresh. created r t fresh;
    get = λ id t. got id t;
    list_owner = λ owner t.
        listed listing_owner (λ r. r.owner_user_id == owner) (λ r. r.owner_user_id == owner)
          (descending (λ r. r.created_at)) t (λ r. refl);
    claim = λ id now t u.
        update-Updates db honest claiming id (λ r. claim_where r t) (λ r. claim_set r now)
          (λ r. is_eligible r t) (λ r. claimed r now) u (λ r. claim-agrees r t)
          (λ r. (statements_agree r now t "" "" "").1) (λ r. refl);
    retry = λ id at u.
        update-Updates db honest retrying id is_running (λ r. pending_retry_set r at) is_processing
          (λ r. returned r at) u (λ r. refl) (λ r. (statements_agree r at 0 "" "" "").2)
          (λ r. refl);
    complete = λ id text at u.
        update-Updates db honest completing id is_running (λ r. completed_set r text at)
          is_processing (λ r. finished r text at) u (λ r. refl)
          (λ r. (statements_agree r at 0 text "" "").3) (λ r. refl);
    fail = λ id code reason at u.
        update-Updates db honest failing id is_running (λ r. failed_set r code reason at)
          is_processing (λ r. failed r code reason at) u (λ r. refl)
          (λ r. (statements_agree r at 0 "" code reason).4) (λ r. refl);
    list_pending = λ t u.
        listed listing_pending (λ r. r.status == "pending" && ltb r.updated_at t)
          (is_pending_before t) (ascending (λ r. r.updated_at)) u (λ r. refl);
  }
