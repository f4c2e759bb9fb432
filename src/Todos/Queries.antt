-- ===== src/Todos/Queries.antt =====
-- internal/todos/postgres: rows of the table todos.todos (models.go) and the statements on them
-- (todos.sql.go), as functions on the list of rows. todo_id is the primary key. Which call of a
-- statement fails is an argument.
use base_template_server_go.Base.{
  Bool, List, Option, String, Time, count_if, length, nat_eq, string_eq, true, ℕ, ◌==◌,
}
use base_template_server_go.Base.Order.{descending, order_by}
use base_template_server_go.Sql.{delete_where, insert, returning, run, scan_row, select_one}
use base_template_server_go.Errors.{GoError}
use base_template_server_go.Op.{Op, ok}
use base_template_server_go.Todos.{UpdateParams, Uuid}

pub record TodosTodo : Type 0 where
  pub todo_id : Uuid
  pub created_at : Time
  pub updated_at : Time
  pub label : String
  pub completed : Bool

-- Which statement a call of the database is.
pub data Statement : Type 0 where
  counting creating deleting finding listing updating : Statement

abbrev pub Table : Type 0
Table = List TodosTodo

-- The failures of the database, and its message on a second row with one primary key.
pub record Database : Type 0 where
  pub fails : Statement → Table → Option GoError
  pub duplicate_key : GoError

abbrev pub has_id : Uuid → TodosTodo → Bool
has_id id r = r.todo_id == id

unfoldable pub set_todo : UpdateParams → TodosTodo → TodosTodo
set_todo arg r = record r {
  updated_at = arg.updated_at;
  label = arg.label;
  completed = arg.completed;
}

pub record CountTodosRow : Type 0 where
  pub total : ℕ
  pub completed : ℕ

module _ (db : Database) where
  abbrev pub insert_todo : TodosTodo → Op Table TodosTodo
  insert_todo row t =
      run (db.fails creating t)
        (λ u. insert db.duplicate_key row (select_one (has_id row.todo_id) u) u) t

  abbrev pub select_todo_by_id : Uuid → Op Table TodosTodo
  select_todo_by_id id t =
      run (db.fails finding t) (λ u. (scan_row (select_one (has_id id) u), u)) t

  -- WHERE todo_id = $1 RETURNING …
  abbrev pub update_todo_row : UpdateParams → Op Table TodosTodo
  update_todo_row arg t =
      run (db.fails updating t)
        (λ u.
          returning (has_id arg.todo_id) (λ r. true) (set_todo arg)
            (select_one (has_id arg.todo_id) u) u)
        t

  -- Through ExecContext: that no row had the id is no error.
  abbrev pub delete_todo_row : Uuid → Op Table (Unit {0})
  delete_todo_row id t = run (db.fails deleting t) (λ u. (ok tt, delete_where (has_id id) u)) t

  abbrev pub select_all_todos : Op Table (List TodosTodo)
  select_all_todos t =
      run (db.fails listing t) (λ u. (ok (order_by (descending (λ r. r.created_at)) u), u)) t

  abbrev pub select_counts : Op Table CountTodosRow
  select_counts t =
      run (db.fails counting t)
        (λ u. (ok (record { total = length u; completed = count_if (λ r. r.completed) u }), u)) t
