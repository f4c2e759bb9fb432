-- ===== src/Reports/Postgres/Laws.antt =====
-- The Postgres store has the laws of the port, whichever statements fail.

use base_template_server_go.Reports.Postgres.Queries.{
  Database, Statement, Table, has_id, update_report,
}
use base_template_server_go.Op.{Op, err}
use base_template_server_go.Errors.{GoError, is, no_rows}
use base_template_server_go.Base.{
  Bool, Bool-cases, Option, Option-cases, [], ap, arith, false, if◌then◌else◌, inl, inr, nat_eq,
  none, refl, some, string_eq, sym, true, ◌++◌, ◌==◌, ◌∙◌, ◌∷◌, ◌≡◌, ◌≢◌,
}
use base_template_server_go.Sql.{select_one, update_where}
use base_template_server_go.Reports.Domain.{Report, Uuid}
use base_template_server_go.Reports.Spec.{Rows, Updates, put, when}
use base_template_server_go.Reports.Postgres.{ReportsReport, map_report}
use base_template_server_go.Reports.Postgres.Store.{mapped}

abbrev pub lookup : Option ReportsReport → Option Report
lookup none = none
lookup (some r) = some (map_report r)

abbrev pub table_rows : Table → Rows
table_rows t id = lookup (select_one (has_id id) t)

pub select_one-keyed :
    (id : Uuid) (t : Table) {r : Report} → table_rows t id ≡ some r → r.report_id ≡ id
unfolding select_one map_report
select_one-keyed id [] e = cc e
select_one-keyed id (x ∷ xs) e = elim (Bool-cases (x.report_id == id)) [
  | inl same ↦ ground (arith, nat_eq.equal_iff x.report_id id, rw same at e)
  | inr other ↦ select_one-keyed id xs (rw other at e)
]

-- A row behind the others is found by its id if no other has it.
pub rows-append :
    (row : ReportsReport) (t : Table) (id : Uuid)
    → table_rows t row.report_id ≡ none
    → table_rows (t ++ row ∷ []) id ≡ put (table_rows t) (map_report row) id
unfolding select_one map_report
rows-append row [] id e = elim (Bool-cases (row.report_id == id)) [
  | inl same ↦ rw same refl
  | inr other ↦ rw other refl
]
rows-append row (x ∷ xs) id e = elim (Bool-cases (x.report_id == row.report_id)) [
  | inl same ↦ absurd (cc (rw same at e))
  | inr new' ↦
      let rest = rows-append row xs id (rw new' at e) in
      elim (Bool-cases (x.report_id == id)) [
        | inl here ↦
            let other : (row.report_id == id) ≡ false = ground (
              arith,
              nat_eq.equal_iff x.report_id row.report_id,
              nat_eq.equal_iff x.report_id id,
              nat_eq.equal_iff row.report_id id,
              new',
              here,
            ) in
            rw (here, other) refl
        | inr there ↦ rw there rest
      ]
]

map_report_id : (r : ReportsReport) → (map_report r).report_id ≡ r.report_id
unfolding map_report
map_report_id r = refl

module _ (change : ReportsReport → ReportsReport)
    (keeps : (q : ReportsReport) → (change q).report_id ≡ q.report_id) where
  update_same :
      (id : Uuid) (t : Table) (r : ReportsReport)
      → select_one (has_id id) t ≡ some r
      → select_one (has_id id) (update_where (has_id id) change t) ≡ some (change r)
  unfolding select_one update_where
  update_same id [] r e = cc e
  update_same id (x ∷ xs) r e = elim (Bool-cases (x.report_id == id)) [
    | inl here ↦
        let hit : ((change x).report_id == id) ≡ true = ap (λ i. i == id) (keeps x) ∙ here in
        let one : x ≡ r = cc (rw here at e) in rw (here, hit) (ap (λ q. some (change q)) one)
    | inr there ↦ rw (there, there) (update_same id xs r (rw there at e))
  ]

  update_other :
      (id j : Uuid) (t : Table)
      → id ≢ j
      → select_one (has_id j) (update_where (has_id id) change t) ≡ select_one (has_id j) t
  unfolding select_one update_where
  update_other id j [] d = refl
  update_other id j (x ∷ xs) d = elim (Bool-cases (x.report_id == id)) [
    | inl here ↦
        let other : (x.report_id == j) ≡ false =
          ground
            (arith, nat_eq.equal_iff x.report_id id, nat_eq.equal_iff x.report_id j, here, d) in
        let miss : ((change x).report_id == j) ≡ false = ap (λ i. i == j) (keeps x) ∙ other in
        rw (here, miss, other) (update_other id j xs d)
    | inr there ↦
        rw there (ap (λ o. if x.report_id == j then some x else o) (update_other id j xs d))
  ]

  rows-update :
      (id : Uuid) (t : Table) (r : ReportsReport) (j : Uuid)
      → select_one (has_id id) t ≡ some r
      → r.report_id ≡ id
      → table_rows (update_where (has_id id) change t) j
        ≡ put (table_rows t) (map_report (change r)) j
  rows-update id t r j e i =
      let known : (map_report (change r)).report_id ≡ id = map_report_id (change r) ∙ keeps r ∙ i in
      let test : ((map_report (change r)).report_id == j) ≡ (id == j) = ap (λ n. n == j) known in
      elim (Bool-cases (id == j)) [
        | inl same ↦
            let here : id ≡ j = (nat_eq.equal_iff id j).0 same in
            rw (test, same, ← here) (ap lookup (update_same id t r e))
        | inr other ↦
            rw (test, other)
              (ap lookup
                (update_other id j t (λ h. absurd (cc (other, (nat_eq.equal_iff id j).1 h)))))
      ]

found_id :
    (id : Uuid) (t : Table) (r : ReportsReport)
    → select_one (has_id id) t ≡ some r
    → r.report_id ≡ id
found_id id t r e = sym (map_report_id r) ∙ select_one-keyed id t (ap lookup e)

-- The four UPDATE statements, behind the store.
abbrev pub update_one :
    Database
    → Statement
    → Uuid
    → (ReportsReport → Bool)
    → (ReportsReport → ReportsReport)
    → Op Table Report
update_one db q id test change = mapped (update_report db q id test change)

-- The failures of the database are none that the program takes for a missing row.
abbrev pub Honest : Database → Type 0
Honest db =
    (is db.duplicate_key no_rows ≡ false)
    × ((q : Statement) (t : Table) (e : GoError) → db.fails q t ≡ some e → is e no_rows ≡ false)

pub refusal :
    (t : Table) (next : Option Report) (e : GoError)
    → is e no_rows ≡ false
    → Updates (table_rows t) (table_rows t) next (err e)
refusal t next e other = ((λ id. refl), λ h. absurd (cc (h, other)))

module _ (db : Database) (honest : Honest db) where
  -- The four UPDATE statements at once.
  pub update-Updates :
      (q : Statement) (id : Uuid) (test : ReportsReport → Bool)
      (change : ReportsReport → ReportsReport) (test' : Report → Bool) (change' : Report → Report)
      (t : Table)
      → ((r : ReportsReport) → test r ≡ test' (map_report r))
      → ((r : ReportsReport) → map_report (change r) ≡ change' (map_report r))
      → ((r : ReportsReport) → (change r).report_id ≡ r.report_id)
      → Updates
          (table_rows t)
          (table_rows (update_one db q id test change t).1)
          (when test' change' (table_rows t id))
          (update_one db q id test change t).0
  update-Updates q id test change test' change' t ht hc keeps = elim (Option-cases (db.fails q t)) [
    | inr (e, down) ↦ rw down (refusal t _ e (honest.1 q t e down))
    | inl up ↦ rw up (elim (Option-cases (select_one (has_id id) t)) [
      | inl missing ↦ rw missing ((λ j. refl), λ h. refl)
      | inr (r, e) ↦ elim (Bool-cases (test r)) [
        | inl fits ↦
            rw (e, fits, ← ht r, fits, ← hc r)
              (refl, λ j. rows-update change keeps id t r j e (found_id id t r e))
        | inr unfit ↦ rw (e, unfit, ← ht r, unfit) ((λ j. refl), λ h. refl)
      ]
    ])
  ]
