-- ===== src/App/Stores.antt =====
-- The reports service over the tables of the program: its store has the laws of the port, and its
-- two other capabilities leave the reports alone.

use base_template_server_go.Reports.Postgres.Queries.{
  Database, Statement, Table, claiming, completing, failing, has_id, retrying,
}
use base_template_server_go.Reports.Postgres.Store.{
  claim_execution, get_report_by_id, mapped, mark_completed, mark_failed, mark_pending_retry,
  postgres_store,
}
use base_template_server_go.Reports.Postgres.{ReportsReport}
use base_template_server_go.Base.{
  Bool, Bool-cases, Option, arith, count_if, inl, inr, length, none, some, true, ◌-◌, ◌≡◌,
}
use base_template_server_go.Sql.{returning, scan_row, select_one}
use base_template_server_go.Errors.{GoError, is, no_rows}
use base_template_server_go.Op.{err}
use base_template_server_go.Todos.Postgres as TodosTable
use base_template_server_go.Reports.Domain.{TodoSummary, Uuid}
use base_template_server_go.Reports.Spec.{Reliable, Rows, StoreLaws}
use base_template_server_go.Reports.Postgres.Store as ReportsTable
use base_template_server_go.Reports.Postgres.Laws.{Honest, table_rows, update_one}
use base_template_server_go.Reports.Postgres.Port.{postgres_store-StoreLaws}
use base_template_server_go.App.{Environment, Program, reports_store}

-- The reports that the program's table holds.
abbrev pub report_rows : Program → Rows
report_rows w = table_rows w.app.reports

pub reports_store-StoreLaws :
    (db : ReportsTable.Database) → Honest db → StoreLaws (reports_store db) report_rows
unfolding reports_store
reports_store-StoreLaws db honest =
    let laws = postgres_store-StoreLaws db honest in
    record {
      keyed = λ w id r e. laws.keyed w.app.reports id r e;
      create = λ r w fresh. laws.create r w.app.reports fresh;
      get = λ id w. laws.get id w.app.reports;
      list_owner = λ owner w. laws.list_owner owner w.app.reports;
      claim = λ id now t w. laws.claim id now t w.app.reports;
      retry = λ id at w. laws.retry id at w.app.reports;
      complete = λ id text at w. laws.complete id text at w.app.reports;
      fail = λ id code reason at w. laws.fail id code reason at w.app.reports;
      list_pending = λ t w. laws.list_pending t w.app.reports;
    }

abbrev pub IsUp : Environment → Type 0
IsUp env =
    ((q : TodosTable.Statement) (t : TodosTable.Table) → env.todos_db.fails q t ≡ none)
    × ((q : ReportsTable.Statement) (t : ReportsTable.Table) → env.reports_db.fails q t ≡ none)

abbrev pub counts : TodosTable.Table → TodoSummary
counts t = record {
  total = length t;
  completed = count_if (λ r. r.completed) t;
  outstanding = length t - count_if (λ r. r.completed) t;
}

update-Reliable :
    (db : ReportsTable.Database)
    → ((q : ReportsTable.Statement) (t : ReportsTable.Table) → db.fails q t ≡ none)
    → (q : ReportsTable.Statement) (id : Uuid) (test : ReportsReport → Bool)
      (change : ReportsReport → ReportsReport) (t : ReportsTable.Table) (e : GoError)
    → (update_one db q id test change t).0 ≡ err e
    → is e no_rows ≡ true
update-Reliable db up q id test change t e h =
    go (select_one (ReportsTable.has_id id) t) (rw (up q t) at h)
  where
    go :
        (o : Option ReportsReport)
        → (ReportsTable.mapped (λ u. returning (ReportsTable.has_id id) test change o u) t).0
          ≡ err e
        → is e no_rows ≡ true
    go none k = ground (arith, k)
    go (some r) k = elim (Bool-cases (test r)) [
      | inl fits ↦ absurd (cc (rw fits at k))
      | inr unfit ↦ ground (arith, rw unfit at k)
    ]

got :
    (db : ReportsTable.Database)
    → ((q : ReportsTable.Statement) (t : ReportsTable.Table) → db.fails q t ≡ none)
    → (id : Uuid) (t : ReportsTable.Table) (e : GoError)
    → (ReportsTable.get_report_by_id db id t).0 ≡ err e
    → is e no_rows ≡ true
unfolding get_report_by_id
got db up id t e h =
    go (select_one (ReportsTable.has_id id) t) (rw (up ReportsTable.Statement.getting t) at h)
  where
    go :
        (o : Option ReportsReport)
        → (ReportsTable.mapped (λ u. (scan_row o, u)) t).0 ≡ err e
        → is e no_rows ≡ true
    go none k = ground (arith, k)
    go (some r) k = absurd (cc k)

pub reports-Reliable : (env : Environment) → IsUp env → Reliable (reports_store env.reports_db)
unfolding reports_store get_report_by_id claim_execution mark_pending_retry mark_completed
    mark_failed ReportsTable.postgres_store
reports-Reliable env (_, up) =
    let db = env.reports_db in
    record {
      get = λ id w e h. got db up id w.app.reports e h;
      claim = λ id now t w. update-Reliable db up claiming id _ _ w.app.reports;
      retry = λ id at w. update-Reliable db up retrying id _ _ w.app.reports;
      complete = λ id text at w. update-Reliable db up completing id _ _ w.app.reports;
      fail = λ id code reason at w. update-Reliable db up failing id _ _ w.app.reports;
    }
